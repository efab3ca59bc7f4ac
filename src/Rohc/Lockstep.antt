-- ===== src/Rohc/Lockstep.antt =====
-- The two ends of the header compression keep the same context, and the receiver rebuilds each
-- packet, on a channel that loses nothing. IPv4 headers without options.
use echo_protocol.Base.{ℕ, ◌≤◌, ◌<◌, ◌≡◌, refl, sym, ap, arith, Bool, true, false}
use echo_protocol.Base.{
  map, List, [], ◌∷◌, ◌++◌, length, take, drop, Option, some, none, ltb, ◌==◌, not,
}
use echo_protocol.Base.{◌||◌, bit_and, length-append, inl, inr}
use echo_protocol.Rohc.{RohcState, byte, refreshed, rohc_sync_context}
use echo_protocol.Rohc.Compress.{
  Compressed, unsupported, malformed, too_small, refresh, sent, same_flow_ipv4,
}
use echo_protocol.Rohc.Compress.{compress_ipv4, rohc_compress}
use echo_protocol.Rohc.Decompress.{rohc_decompress}
use echo_protocol.Rohc.Fields.{tabulate, expand}
use mathlib.Core.Path.{subst}
use echo_protocol.Base.{Bool-cases, length-take, length-drop, get_or-append_left, get_or-take}
use echo_protocol.Rohc.{rohc_init}
use echo_protocol.Rohc.Rebuild.{IsPacket, static, decompress-sent, compress_sent}

-- A context that a receiver can rebuild from.
pub record IsContext (s : RohcState) : Type 0 where
  pub size : length s.context ≡ 40
  pub first : byte s.context 0 < 256

-- What the receiver does with what the sender's call gave: a packet that is sent as it is refreshes
-- the context.
abbrev pub receive : List ℕ → RohcState → Compressed → List ℕ → ℕ → RohcState × Option (List ℕ)
receive beyond r unsupported packet cap = (r, none)
receive beyond r malformed packet cap = (r, none)
receive beyond r too_small packet cap = (r, none)
receive beyond r refresh packet cap = (rohc_sync_context r packet (length packet), some packet)
receive beyond r (sent air) packet cap = rohc_decompress beyond r air (length air) cap

-- The sender's call when the context is to be refreshed, and what the receiver does then.
compress_refresh :
    (s : RohcState) (packet : List ℕ) (out_len : ℕ)
    → byte packet 0 ≡ 0x45
    → 20 ≤ length packet
    → (not s.context_valid
        || (not (same_flow_ipv4 packet s.context)
            || not (bit_and (byte packet 0) 0x0F == bit_and (byte s.context 0) 0x0F)))
      ≡ true
    → rohc_compress s packet (length packet) out_len ≡ (refreshed s packet 20, refresh)
unfolding rohc_compress compress_ipv4
compress_refresh s packet out_len p0 size e =
    let short : ltb (length packet) 20 ≡ false = ground arith in rw (e, p0, short)

sync_refresh :
    (s : RohcState) (packet : List ℕ)
    → byte packet 0 ≡ 0x45
    → 20 ≤ length packet
    → rohc_sync_context s packet (length packet) ≡ refreshed s packet 20
unfolding rohc_sync_context
sync_refresh s packet p0 size =
    let short : ltb (length packet) 20 ≡ false = ground arith in rw (p0, short)

-- One packet goes over, and both ends have the same state again.
abbrev pub Lockstep : List ℕ → ℕ → ℕ → RohcState → List ℕ → Type 0
Lockstep beyond out_len cap s packet =
    let (s', r) = rohc_compress s packet (length packet) out_len in
    (receive beyond s r packet cap ≡ (s', some packet)) × IsContext s'

-- The same when the context serves for the packet.
abbrev Served : List ℕ → ℕ → ℕ → RohcState → List ℕ → Type 0
Served beyond out_len cap s packet =
    IsContext s
    → IsPacket packet
    → length packet ≤ out_len
    → length packet ≤ cap
    → same_flow_ipv4 packet s.context ≡ true
    → (bit_and (byte packet 0) 0x0F == bit_and (byte s.context 0) 0x0F) ≡ true
    → Lockstep beyond out_len cap s packet

abbrev valid_with : List ℕ → RohcState
valid_with context = record { context = context; context_valid = true }

serve_by_bytes :
    (p c : ℕ → ℕ) (payload rest beyond : List ℕ) (out_len cap : ℕ)
    → Served beyond out_len cap (valid_with (tabulate 20 c ++ rest)) (tabulate 20 p ++ payload)
serve_by_bytes p c payload rest beyond out_len cap v ok room room' same low =
    rw (compress_sent p c payload rest out_len ok.first room same low) (
      decompress-sent p c payload rest beyond cap ok
          (static p c payload rest ok.first v.first same low) room',
      record { size = v.size; first = v.first },
    )

served :
    (beyond packet context : List ℕ) (out_len cap : ℕ)
    → 20 ≤ length packet
    → 20 ≤ length context
    → Served beyond out_len cap (valid_with context) packet
served beyond packet context out_len cap h h' =
    subst (λ c. Served beyond out_len cap (valid_with c) packet) (expand 20 context h')
      (subst
        (λ q.
          Served beyond out_len cap (valid_with (tabulate 20 (byte context) ++ drop 20 context)) q)
        (expand 20 packet h)
        (serve_by_bytes (byte packet) (byte context) (drop 20 packet) (drop 20 context) beyond
          out_len cap))

refreshed-IsContext :
    (s : RohcState) (packet : List ℕ)
    → IsContext s
    → IsPacket packet
    → IsContext (refreshed s packet 20)
refreshed-IsContext s packet v ok = record {
  size = omega (
    arith,
    v.size,
    ok.size,
    length-append (take 20 packet) (drop 20 s.context),
    length-take 20 packet,
    length-drop 20 s.context,
  );
  first = omega (
    arith,
    ok.first,
    get_or-append_left (take 20 packet) (drop 20 s.context) 0 0
        (omega (arith, ok.size, length-take 20 packet)),
    get_or-take 20 packet 0 0 (omega arith),
  );
}

all_known :
    (a b c : Bool) → (not a || (not b || not c)) ≡ false → (a ≡ true) × (b ≡ true) × (c ≡ true)
all_known a b c e = ground arith

with_valid : (s : RohcState) → s.context_valid ≡ true → valid_with s.context ≡ s
with_valid s e = ap (λ b. record { context = s.context; context_valid = b }) (sym e)

-- Over a channel that loses nothing, from the same state on both ends, with room for the packet in
-- both buffers: whatever `rohc_compress` makes of an IPv4 packet without options whose length and
-- checksum are right, the receiver gets the packet, and both ends have the same state again.
pub lockstep :
    (s : RohcState) (beyond packet : List ℕ) (out_len cap : ℕ)
    → IsContext s
    → IsPacket packet
    → length packet ≤ out_len
    → length packet ≤ cap
    → Lockstep beyond out_len cap s packet
lockstep s beyond packet out_len cap v ok room room' =
    elim (Bool-cases (
      not s.context_valid
      || (not (same_flow_ipv4 packet s.context)
          || not (bit_and (byte packet 0) 0x0F == bit_and (byte s.context 0) 0x0F)))) [
            | inl new ↦ rw (compress_refresh s packet out_len ok.first ok.size new) (
              ap (λ r. (r, some packet)) (sync_refresh s packet ok.first ok.size),
              refreshed-IsContext s packet v ok,
            )
            | inr known ↦
                let (valid, same, low) = all_known _ _ _ known in
                subst (λ t. Lockstep beyond out_len cap t packet) (with_valid s valid)
                  (served beyond packet s.context out_len cap ok.size (omega (arith, v.size))
                    (record { size = v.size; first = v.first }) ok room room' same low)
          ]

-- A conversation: each packet is compressed, sent and received before the next. The two states in
-- the end, and what the receiver got.
unfoldable pub converse :
    List ℕ
    → ℕ
    → ℕ
    → RohcState
    → RohcState
    → List (List ℕ)
    → RohcState × RohcState × List (Option (List ℕ))
converse beyond out_len cap s r [] = (s, r, [])
converse beyond out_len cap s r (packet ∷ packets) =
    let (s', sent_as) = rohc_compress s packet (length packet) out_len in
    let (r', got) = receive beyond r sent_as packet cap in
    let (s'', r'', rest) = converse beyond out_len cap s' r' packets in (s'', r'', got ∷ rest)

abbrev pub AllPackets : ℕ → List (List ℕ) → Type 0
AllPackets limit [] = Unit
AllPackets limit (packet ∷ packets) =
    IsPacket packet × (length packet ≤ limit) × AllPackets limit packets

converse_from :
    (beyond : List ℕ) (limit : ℕ) (s : RohcState) (packets : List (List ℕ))
    → IsContext s
    → AllPackets limit packets
    → let (s', r', got) = converse beyond limit limit s s packets in
      (s' ≡ r') × (got ≡ map some packets)
unfolding converse
converse_from beyond limit s [] v a = (refl, refl)
converse_from beyond limit s (packet ∷ packets) v (ok, room, a) =
    let step = lockstep s beyond packet limit limit v ok room room in
    let rest =
      converse_from beyond limit (rohc_compress s packet (length packet) limit).0 packets step.1
        a in
    rw step.0 (rest.0, ap (λ l. some packet ∷ l) rest.1)

-- After `rohc_init` on both ends, any number of IPv4 packets without options, whose lengths and
-- checksums are right and that the buffers have room for, goes over a channel that loses nothing: each
-- is received as it was sent, and both ends end in the same state.
pub converse_lem :
    (beyond : List ℕ) (limit : ℕ) (fresh : RohcState) (packets : List (List ℕ))
    → AllPackets limit packets
    → let (s', r', got) = converse beyond limit limit (rohc_init fresh) (rohc_init fresh) packets in
      (s' ≡ r') × (got ≡ map some packets)
unfolding rohc_init
converse_lem beyond limit fresh packets a =
    converse_from beyond limit (rohc_init fresh) packets
      (record { size = refl; first = omega arith }) a
