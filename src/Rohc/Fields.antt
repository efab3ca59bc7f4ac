-- ===== src/Rohc/Fields.antt =====
-- What `rohc_decompress` reads of a header that `compress_ipv4` wrote. Headers have no options, and
-- are given by their 20 bytes.
use echo_protocol.Base.{
  ℕ, zero, suc, ◌+◌, ◌≤◌, ◌≡◌, refl, ap, arith, Bool, true, false, if◌then◌else◌,
}
use echo_protocol.Base.{List, [], ◌∷◌, ◌++◌, length, drop, bit_or, some}
use echo_protocol.Rohc.{byte, has}
use echo_protocol.Rohc.Compress.{flag_ip_id, flag_tos, flag_flags, flag_ttl, header_ipv4, sealed}
use echo_protocol.Rohc.Decompress.{
  read_field, copy_bytes, read_fields_ipv4, header_len_ipv4, crc_of,
}

-- The first `n` values of a function.
abbrev pub tabulate : ℕ → (ℕ → ℕ) → List ℕ
tabulate zero f = []
tabulate (suc n) f = f 0 ∷ tabulate n (λ i. f (suc i))

-- A list of at least `n` elements begins with its first `n`.
pub expand : (n : ℕ) (xs : List ℕ) → n ≤ length xs → tabulate n (byte xs) ++ drop n xs ≡ xs
expand zero xs h = refl
expand (suc n) [] h = absurd (omega arith)
expand (suc n) (x ∷ xs) h = ap (λ l. x ∷ l) (expand n xs (omega arith))

-- The flags, from what is the same as in the context.
abbrev pub flags_of : Bool → Bool → Bool → ℕ
flags_of tos frag ttl =
    let f = flag_ip_id in
    let f' = if tos then f else bit_or f flag_tos in
    let f'' = if frag then bit_or f' flag_flags else f' in if ttl then f'' else bit_or f'' flag_ttl

-- The context's header, with the fields that change taken from the packet.
abbrev pub merged : (ℕ → ℕ) → (ℕ → ℕ) → List ℕ
merged p c = c 0 ∷ p 1 ∷ c 2 ∷ c 3 ∷ p 4 ∷ p 5 ∷ p 6 ∷ p 7 ∷ p 8 ∷ tabulate 11 (λ i. c (9 + i))

module _ (p c : ℕ → ℕ) (payload : List ℕ) where
  abbrev packet : List ℕ
  packet = tabulate 20 p ++ payload

  abbrev pub wire : ℕ → List ℕ
  wire flags = sealed (header_ipv4 packet flags) payload

  -- Each field is read from where it was written, or kept from the context.
  pub fields :
      (tos frag ttl : Bool)
      → (tos ≡ true → p 1 ≡ c 1)
      → (frag ≡ false → (p 6 ≡ c 6) × (p 7 ≡ c 7))
      → (ttl ≡ true → p 8 ≡ c 8)
      → read_fields_ipv4
          (wire (flags_of tos frag ttl))
          (length (wire (flags_of tos frag ttl)))
          (flags_of tos frag ttl)
          (tabulate 20 c)
        ≡ some (record { rebuilt = merged p c; pos = header_len_ipv4 (flags_of tos frag ttl) })
  unfolding read_fields_ipv4 read_field copy_bytes header_ipv4 header_len_ipv4 has
  fields true false true a b d = rw (a refl, (b refl).0, (b refl).1, d refl) (ground arith)
  fields true false false a b d = rw (a refl, (b refl).0, (b refl).1) (ground arith)
  fields true true true a b d = rw (a refl, d refl) (ground arith)
  fields true true false a b d = rw (a refl) (ground arith)
  fields false false true a b d = rw ((b refl).0, (b refl).1, d refl) (ground arith)
  fields false false false a b d = rw ((b refl).0, (b refl).1) (ground arith)
  fields false true true a b d = rw (d refl) (ground arith)
  fields false true false a b d = ground arith

  -- The CRC is the one that the reader computes.
  pub crc :
      (tos frag ttl : Bool)
      → byte (wire (flags_of tos frag ttl)) 2
        ≡ crc_of (wire (flags_of tos frag ttl)) (header_len_ipv4 (flags_of tos frag ttl))
  unfolding header_ipv4 header_len_ipv4 has
  crc true false true = refl
  crc true false false = refl
  crc true true true = refl
  crc true true false = refl
  crc false false true = refl
  crc false false false = refl
  crc false true true = refl
  crc false true false = refl

  -- The header is as long as the reader takes it to be, and the payload comes behind it.
  pub layout :
      (tos frag ttl : Bool)
      → (length (wire (flags_of tos frag ttl))
          ≡ header_len_ipv4 (flags_of tos frag ttl) + length payload)
        × (drop (header_len_ipv4 (flags_of tos frag ttl)) (wire (flags_of tos frag ttl)) ≡ payload)
        × (byte (wire (flags_of tos frag ttl)) 0 ≡ 0)
        × (byte (wire (flags_of tos frag ttl)) 1 ≡ flags_of tos frag ttl)
        × (5 ≤ header_len_ipv4 (flags_of tos frag ttl))
        × (header_len_ipv4 (flags_of tos frag ttl) ≤ 9)
  unfolding header_ipv4 header_len_ipv4 has
  layout true false true = (omega arith, refl, refl, refl, omega arith, omega arith)
  layout true false false = (omega arith, refl, refl, refl, omega arith, omega arith)
  layout true true true = (omega arith, refl, refl, refl, omega arith, omega arith)
  layout true true false = (omega arith, refl, refl, refl, omega arith, omega arith)
  layout false false true = (omega arith, refl, refl, refl, omega arith, omega arith)
  layout false false false = (omega arith, refl, refl, refl, omega arith, omega arith)
  layout false true true = (omega arith, refl, refl, refl, omega arith, omega arith)
  layout false true false = (omega arith, refl, refl, refl, omega arith, omega arith)
