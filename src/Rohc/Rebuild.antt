-- ===== src/Rohc/Rebuild.antt =====
-- `rohc_decompress` of what `compress_ipv4` gives, for a packet without options and a context given
-- by their first 20 bytes.
use echo_protocol.Base.{
  ℕ, ◌+◌, ◌-◌, ◌*◌, ◌/◌, ◌%◌, ◌≤◌, ◌<◌, ◌≡◌, refl, sym, ◌∙◌, arith, Bool, true, false,
}
use echo_protocol.Base.{List, ◌++◌, length, take, set, some, ltb, ◌==◌, not}
use echo_protocol.Base.{◌||◌, bit_and, ◌>>◌, all_below, all_below_sound, take_all}
use echo_protocol.Base.Xor.{bit_and_mask}
use echo_protocol.Rohc.{RohcState, byte, has, ip_checksum}
use echo_protocol.Rohc.Compress.{sent, same_flow_ipv4}
use echo_protocol.Rohc.Compress.{
  flags_ipv4, compress_ipv4, rohc_compress, learn_ipv4, memcmp_same, sealed, header_ipv4,
}
use echo_protocol.Rohc.Decompress.{
  finish_ipv4, learned_ipv4, deliver_ipv4, decompress_ipv4, rohc_decompress, header_len_ipv4,
  crc_of,
}
use echo_protocol.Rohc.Fields.{tabulate, flags_of, merged, wire, fields, crc, layout}

-- An IPv4 packet without options, whose length field and checksum are right.
pub record IsPacket (packet : List ℕ) : Type 0 where
  pub size : 20 ≤ length packet
  pub first : byte packet 0 ≡ 0x45
  pub total_high : byte packet 2 ≡ length packet / 256 % 256
  pub total_low : byte packet 3 ≡ length packet % 256
  pub sum_high : byte packet 10 ≡ ip_checksum (set (set (take 20 packet) 10 0) 11 0) 20 / 256 % 256
  pub sum_low : byte packet 11 ≡ ip_checksum (set (set (take 20 packet) 10 0) 11 0) 20 % 256

nibbles_row : ℕ → Bool
nibbles_row x = not (bit_and x 0xF0 == 0x40) || (not (bit_and x 0x0F == 5) || (x == 0x45))

nibbles : all_below 256 nibbles_row ≡ true
unfolding all_below nibbles_row
nibbles = refl

-- The first byte of an IPv4 header of 20 bytes.
first_byte : (x : ℕ) → x < 256 → bit_and x 0xF0 ≡ 0x40 → bit_and x 0x0F ≡ 5 → x ≡ 0x45
first_byte x h hi lo =
    let row = all_below_sound 256 nibbles_row x nibbles h in unfold nibbles_row in ground arith

module _ (p c : ℕ → ℕ) (payload rest : List ℕ) where
  abbrev pub ip : List ℕ
  ip = tabulate 20 p ++ payload

  abbrev pub ctx : List ℕ
  ctx = tabulate 20 c ++ rest

  -- The static fields are those of the context.
  abbrev pub Static : Type 0
  Static =
      (p 0 ≡ c 0)
      × (p 9 ≡ c 9)
      × (p 12 ≡ c 12)
      × (p 13 ≡ c 13)
      × (p 14 ≡ c 14)
      × (p 15 ≡ c 15)
      × (p 16 ≡ c 16)
      × (p 17 ≡ c 17)
      × (p 18 ≡ c 18)
      × (p 19 ≡ c 19)

  pub static :
      p 0 ≡ 0x45
      → c 0 < 256
      → same_flow_ipv4 ip ctx ≡ true
      → (bit_and (p 0) 0x0F == bit_and (c 0) 0x0F) ≡ true
      → Static
  unfolding same_flow_ipv4 memcmp_same all_below
  static p0 h same low = ground (arith, first_byte (c 0))

  -- What the receiver makes of the header.
  rebuild : IsPacket ip → Static → finish_ipv4 (merged p c) 20 (length ip) ≡ tabulate 20 p
  unfolding finish_ipv4
  rebuild ok (e0, e9, e12, e13, e14, e15, e16, e17, e18, e19) =
      let hi : bit_and (length ip >> 8) 0xFF ≡ p 2 =
        bit_and_mask 8 (length ip >> 8) ∙ sym ok.total_high in
      let lo : bit_and (length ip) 0xFF ≡ p 3 = bit_and_mask 8 (length ip) ∙ sym ok.total_low in
      let sum : ℕ = ip_checksum (set (set (tabulate 20 p) 10 0) 11 0) 20 in
      let sum_hi : bit_and (sum >> 8) 0xFF ≡ p 10 = bit_and_mask 8 (sum >> 8) ∙ sym ok.sum_high in
      let sum_lo : bit_and sum 0xFF ≡ p 11 = bit_and_mask 8 sum ∙ sym ok.sum_low in
      rw (
        sym e0,
        sym e9,
        sym e12,
        sym e13,
        sym e14,
        sym e15,
        sym e16,
        sym e17,
        sym e18,
        sym e19,
        hi,
        lo,
        sum_hi,
        sum_lo,
      )

  -- The two ends store the same fields.
  learned_same : learned_ipv4 ctx (tabulate 20 p) ≡ learn_ipv4 ctx ip
  learned_same = refl

  module _ (beyond : List ℕ) (cap : ℕ) (ok : IsPacket ip) (st : Static) (tos frag ttl : Bool)
      (same_tos : tos ≡ true → p 1 ≡ c 1) (same_frag : frag ≡ false → (p 6 ≡ c 6) × (p 7 ≡ c 7))
      (same_ttl : ttl ≡ true → p 8 ≡ c 8) (room : length ip ≤ cap) where
    abbrev receiver : RohcState
    receiver = record { context = ctx; context_valid = true }

    abbrev flags : ℕ
    flags = flags_of tos frag ttl

    abbrev air : List ℕ
    air = wire p c payload flags

    size20 : bit_and (c 0) 0x0F * 4 ≡ 20
    size20 = rw (sym st.0 ∙ ok.first)

    -- The ip comes out, and the context is that of the sender.
    delivered :
        deliver_ipv4 receiver air
          (length air)
          cap
          (record { rebuilt = merged p c; pos = header_len_ipv4 flags })
        ≡ (record { context = learn_ipv4 ctx ip; context_valid = true }, some ip)
    unfolding deliver_ipv4
    delivered =
        let (len, behind, first, second, low, high) = layout p c payload tos frag ttl in
        let left : length air - header_len_ipv4 flags ≡ length payload = omega (arith, len) in
        let total : 20 + length payload ≡ length ip = omega arith in
        let fits : ltb (length air) (header_len_ipv4 flags) ≡ false = ground (arith, len) in
        let wide : ltb cap (length ip) ≡ false = ground arith in
        rw (
          size20,
          left,
          behind,
          total,
          rebuild ok st,
          fits,
          wide,
          take_all (length payload) payload (omega arith),
        )

    decompressed :
        rohc_decompress beyond receiver air (length air) cap
        ≡ (record { context = learn_ipv4 ctx ip; context_valid = true }, some ip)
    unfolding rohc_decompress decompress_ipv4 has
    decompressed =
        let (len, behind, first, second, low, high) = layout p c payload tos frag ttl in
        let long : ltb (length air) 5 ≡ false = ground (arith, len, low) in
        let checked : (byte air 2 == crc_of air (header_len_ipv4 flags)) ≡ true =
          ground (arith, crc p c payload tos frag ttl) in
        rw (
          second,
          first,
          long,
          checked,
          size20,
          fields p c payload tos frag ttl same_tos same_frag same_ttl,
          delivered,
        )

  -- With the flags that the sender computes.
  pub decompress-sent :
      (beyond : List ℕ) (cap : ℕ)
      → IsPacket ip
      → Static
      → length ip ≤ cap
      → let flags = flags_ipv4 ip ctx in
        let air = sealed (header_ipv4 ip flags) payload in
        rohc_decompress beyond (record { context = ctx; context_valid = true }) air (length air) cap
        ≡ (record { context = learn_ipv4 ctx ip; context_valid = true }, some ip)
  unfolding flags_ipv4
  decompress-sent beyond cap ok st room =
      decompressed beyond cap ok st (p 1 == c 1) (not (p 6 == c 6) || not (p 7 == c 7)) (p 8 == c 8)
        (λ e. ground arith) (λ e. ground arith) (λ e. ground arith) room

  pub compress_sent :
      (out_len : ℕ)
      → p 0 ≡ 0x45
      → length ip ≤ out_len
      → same_flow_ipv4 ip ctx ≡ true
      → (bit_and (p 0) 0x0F == bit_and (c 0) 0x0F) ≡ true
      → rohc_compress (record { context = ctx; context_valid = true }) ip (length ip) out_len ≡ (
        record { context = learn_ipv4 ctx ip; context_valid = true },
        sent (sealed (header_ipv4 ip (flags_ipv4 ip ctx)) payload),
      )
  unfolding rohc_compress compress_ipv4
  compress_sent out_len p0 room same low =
      let short : ltb (length ip) 20 ≡ false = ground arith in
      let left : length ip - 20 ≡ length payload = omega arith in
      rw (same, low, p0, short, left, take_all (length payload) payload (omega arith))
        (ground arith)
