-- ===== src/Link/Written.antt =====
-- What `rb_to_tun` of src/echo_protocol.c writes of a frame that `tun_to_rb` has made.
use mathlib.Core.Path.{subst}
use native.Mathlib.Decide.{ℕ_discrete}
use echo_protocol.Base.{ℕ, ◌≤◌, ◌<◌, ◌≡◌, ◌⊎◌, inl, inr, refl, sym, ap, ◌∙◌, arith, true}
use echo_protocol.Base.{List, [], ◌∷◌, ◌++◌, Option, some, length, AllBytes}
use echo_protocol.Ring.Inv.{IsValid as IsRing}
use echo_protocol.Ring.Refine.{contents}
use echo_protocol.Fec.Gf.{Gf}
use echo_protocol.Fec.Gf.Field.{IsReached, reached-same}
use echo_protocol.Fec.Frame.{fec_decode}
use echo_protocol.Fec.Frame.Same.{decode_same}
use echo_protocol.Header.{pack}
use echo_protocol.Transmit.{Sender, Outgoing, header_for, lz4_buf_size, as_is}
use echo_protocol.Transmit.Sent.{frame_bits}
use echo_protocol.Transmit.Choice.{GivesBytes}
use echo_protocol.Transmit.Coded.{IsCoded}
use echo_protocol.Transmit.Framed.{IsFrame, chosen_for, chosen_for-IsChosen}
use echo_protocol.Delivery.{Station, Surroundings, rb_to_tun, with_ring}
use echo_protocol.Delivery.Settled.{IsGood}
use echo_protocol.Delivery.Arrive.{IsHanded, read_frame, plain_frame, coded_frame, deliver-written}

-- The station has a whole frame.
pub record IsComplete (st : Station) (o : Outgoing) : Type 0 where
  pub ring : IsRing st.receiver.rx_rb
  pub holds : contents st.receiver.rx_rb ≡ frame_bits o
  pub comp : st.receiver.is_compressed ≡ o.comp
  pub rohc : st.receiver.is_rohc ≡ o.rohc
  pub fec : st.receiver.is_fec ≡ o.fec

-- The decoding of a code that was made with other tables.
decoded_here :
    {g : Gf} (env : Surroundings) (st : Station) (code : List ℕ) (bytes : List ℕ)
    → IsReached g
    → IsReached st.gf
    → env.memory ≡ true
    → fec_decode g true code (length code) 4096 ≡ some bytes
    → fec_decode st.gf env.memory code (length code) 4096 ≡ some bytes
decoded_here {g} env st code bytes reached reached' memory e =
    ap (λ m. fec_decode st.gf m code (length code) 4096) memory
    ∙ decode_same st.gf g true code (length code) 4096 (reached-same reached' reached)
    ∙ e

-- The payload of a frame reaches `deliver` as the bytes that were chosen.
pub chosen-IsHanded :
    {g : Gf} {chosen : Outgoing} (env : Surroundings) (st : Station) (o : Outgoing)
    → IsReached g
    → IsReached st.gf
    → env.memory ≡ true
    → IsComplete st o
    → IsCoded g chosen o
    → 0 < length chosen.bytes
    → 0 < length o.bytes
    → length o.bytes ≤ 4096
    → IsHanded env st (rb_to_tun env (length o.bytes) st) chosen.bytes
chosen-IsHanded {g} {chosen} env st o reached reached' memory v c pos pos' small =
    let (b, e) =
      read_frame env st (pack (header_for o)) o.bytes v.ring v.holds c.bytes pos' small in
    subst (λ end. IsHanded env st end chosen.bytes) (sym e)
      (elim c.coding [
        | inl (fec, bytes) ↦
            subst (IsHanded env st _) bytes (plain_frame env st o.bytes b (v.fec ∙ fec))
        | inr (fec, size, decoded) ↦
            coded_frame env st o.bytes chosen.bytes b (v.fec ∙ fec)
              (decoded_here env st o.bytes chosen.bytes reached reached' memory decoded) pos
      ])

-- LZ4 gives back what it has compressed, where there is room for it.
abbrev pub Undoes : (List ℕ → ℕ → Option (List ℕ)) → (List ℕ → ℕ → Option (List ℕ)) → Type 0
Undoes lz4_compress lz4_decompress =
    (input output : List ℕ) (capacity room : ℕ)
    → lz4_compress input capacity ≡ some output
    → length input ≤ room
    → lz4_decompress output room ≡ some input

-- How the bytes of a frame give the packet, when its header is not compressed.
abbrev pub Gives : Surroundings → Outgoing → List ℕ → Type 0
Gives env chosen raw =
    ((chosen.comp ≡ 0) × (chosen.bytes ≡ raw))
    ⊎ ((chosen.comp ≡ 1) × (env.lz4_decompress chosen.bytes 4096 ≡ some raw))

pub chosen-Gives :
    (lz4_compress : List ℕ → ℕ → Option (List ℕ)) (env : Surroundings) (raw : List ℕ) (s : Sender)
    → GivesBytes lz4_compress
    → Undoes lz4_compress env.lz4_decompress
    → 0 < length raw
    → length raw ≤ 1784
    → AllBytes raw
    → (chosen_for lz4_compress raw s).rohc ≡ 0
    → Gives env (chosen_for lz4_compress raw s) raw
chosen-Gives lz4_compress env raw s lz4 undoes pos small b r =
    let chosen = chosen_for lz4_compress raw s in
    let v = chosen_for-IsChosen lz4_compress raw s lz4 pos b in
    elim (ℕ_discrete chosen.comp 0) [
      | yes c ↦ inl (c, v.plain c r)
      | no n ↦
          let c : chosen.comp ≡ 1 = omega (arith, v.one_flag) in
          inr (c, undoes raw chosen.bytes lz4_buf_size 4096 (v.by_lz4 c) (omega arith))
    ]

handed-written :
    {st end : Station} (env : Surroundings) (chosen : Outgoing) (raw : List ℕ)
    → IsHanded env st end chosen.bytes
    → st.receiver.is_rohc ≡ 0
    → st.receiver.is_compressed ≡ chosen.comp
    → Gives env chosen raw
    → IsGood env raw
    → end.written ≡ st.written ++ (raw ∷ [])
handed-written {st} {end} env chosen raw h r c g good =
    ap (λ (t : Station). t.written) h.handed
    ∙ deliver-written env h.array chosen.bytes raw (record (with_ring st h.ring) { gf = h.gf })
        h.front r
        (elim g [ inl (zero_comp, e) ↦ inl (c ∙ zero_comp, e) | inr (one, e) ↦ inr (c ∙ one, e) ])
        good

-- A frame of bytes that were chosen, or of the packet itself.
module _ {g : Gf} (env : Surroundings) (st : Station) (raw : List ℕ) (reached : IsReached g)
    (reached' : IsReached st.gf) (memory : env.memory ≡ true) (good : IsGood env raw) where
  coded-written :
      {chosen : Outgoing} (o : Outgoing)
      → IsCoded g chosen o
      → Gives env chosen raw
      → IsComplete st o
      → o.rohc ≡ 0
      → 0 < length chosen.bytes
      → 0 < length o.bytes
      → length o.bytes ≤ 2048
      → (rb_to_tun env (length o.bytes) st).written ≡ st.written ++ (raw ∷ [])
  coded-written {chosen} o c gives v r pos pos' small =
      handed-written env chosen raw
        (chosen-IsHanded env st o reached reached' memory v c pos pos' (omega arith)) (v.rohc ∙ r)
        (v.comp ∙ c.same_flags.0) gives good

  pub frame-written :
      {chosen : Outgoing} (o : Outgoing)
      → IsFrame g raw chosen o
      → (chosen.rohc ≡ 0 → Gives env chosen raw)
      → IsComplete st o
      → o.rohc ≡ 0
      → AllBytes raw
      → 0 < length raw
      → 0 < length chosen.bytes
      → 0 < length o.bytes
      → length o.bytes ≤ 2048
      → (rb_to_tun env (length o.bytes) st).written ≡ st.written ++ (raw ∷ [])
  frame-written o (inl e) gives v r b n pos pos' small =
      let same : IsCoded g (as_is raw) o =
        subst (IsCoded g (as_is raw)) (sym e)
          (record { bytes = b; same_flags = (refl, refl); coding = inl (refl, refl) }) in
      coded-written o same (inl (refl, refl)) v r n pos' small
  frame-written o (inr c) gives v r b n pos pos' small =
      coded-written o c (gives (sym c.same_flags.1 ∙ r)) v r pos pos' small
