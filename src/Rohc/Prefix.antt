-- ===== src/Rohc/Prefix.antt =====
-- What `rohc_decompress` of src/rohc.c reads: a packet in a longer array is read as it stands alone.
use echo_protocol.Base.{
  ℕ, zero, suc, ◌+◌, ◌-◌, ◌≤◌, ◌≡◌, refl, ap, ◌∙◌, arith, Bool, true, false, Bool-cases, inl, inr,
  if◌then◌else◌, ltb,
}
use echo_protocol.Base.{
  bit_and, ◌*◌, ◌++◌, List, [], ◌∷◌, length, set, take, drop, Option, some, none, get_or-take,
}
use echo_protocol.Rohc.{RohcState, byte, has}
use echo_protocol.Rohc.Compress.{flag_ip_id, flag_tos, flag_flags, flag_ttl}
use echo_protocol.Rohc.Decompress.{
  ◌>>=◌, Rebuilding, copy_bytes, read_field, read_fields_ipv4, deliver_ipv4, decompress_ipv4,
  header_len_ipv4, rohc_decompress,
}

take_twice : {A : Type 0} (m n : ℕ) (xs : List A) → m ≤ n → take m (take n xs) ≡ take m xs
take_twice zero n xs h = refl
take_twice (suc m) zero xs h = absurd (omega (arith, h))
take_twice (suc m) (suc n) [] h = refl
take_twice (suc m) (suc n) (x ∷ xs) h = ap (λ l. x ∷ l) (take_twice m n xs (omega (arith, h)))

take-drop-take :
    {A : Type 0} (i n : ℕ) (xs : List A)
    → take (n - i) (drop i (take n xs)) ≡ take (n - i) (drop i xs)
take-drop-take zero n xs =
    let all : n - 0 ≡ n = omega arith in rw all (take_twice n n xs (omega arith))
take-drop-take (suc i) zero xs = let gone : 0 - suc i ≡ 0 = omega arith in rw gone refl
take-drop-take (suc i) (suc n) [] = refl
take-drop-take (suc i) (suc n) (x ∷ xs) =
    let less : suc n - suc i ≡ n - i = omega arith in rw less (take-drop-take i n xs)

bind_cong :
    {x y : Option Rebuilding} {f g : Rebuilding → Option Rebuilding}
    → x ≡ y
    → ((r : Rebuilding) → f r ≡ g r)
    → (x >>= f) ≡ (y >>= g)
bind_cong {x = none} {y} {f} {g} e h = ap (λ z. z >>= g) e
bind_cong {x = some r} {y} {f} {g} e h = h r ∙ ap (λ z. z >>= g) e

module _ (array : List ℕ) (n : ℕ) where
  abbrev front : List ℕ
  front = take n array

  copy_front :
      (ts : List ℕ) (r : Rebuilding)
      → r.pos + length ts ≤ n
      → copy_bytes front ts r ≡ copy_bytes array ts r
  unfolding copy_bytes
  copy_front [] r h = refl
  copy_front (t ∷ ts) r h =
      let same : byte front r.pos ≡ byte array r.pos =
        get_or-take n array r.pos 0 (omega (arith, h)) in
      rw same (
        copy_front ts (record { rebuilt = set r.rebuilt t (byte array r.pos); pos = r.pos + 1 })
          (omega (arith, h)))

  field_front :
      (present : Bool) (ts : List ℕ) (r : Rebuilding)
      → read_field front n present ts r ≡ read_field array n present ts r
  unfolding read_field
  field_front false ts r = refl
  field_front true ts r = elim (Bool-cases (ltb n (r.pos + length ts))) [
    | inl short ↦ rw short refl
    | inr long ↦ rw long (ap some (copy_front ts r (ground (arith, long))))
  ]

  fields_front :
      (flags : ℕ) (start : List ℕ)
      → read_fields_ipv4 front n flags start ≡ read_fields_ipv4 array n flags start
  unfolding read_fields_ipv4
  fields_front flags start =
      bind_cong
        (field_front (has flags flag_ip_id) (4 ∷ 5 ∷ []) (record { rebuilt = start; pos = 3 }))
        (λ r. bind_cong (field_front (has flags flag_tos) (1 ∷ []) r) (λ r'.
          bind_cong (field_front (has flags flag_flags) (6 ∷ 7 ∷ []) r')
            (λ r''. field_front (has flags flag_ttl) (8 ∷ []) r'')))

  deliver_front :
      (s : RohcState) (out_len : ℕ) (r : Rebuilding)
      → deliver_ipv4 s front n out_len r ≡ deliver_ipv4 s array n out_len r
  unfolding deliver_ipv4
  deliver_front s out_len r = rw (take-drop-take r.pos n array) refl

  -- The end of `rohc_decompress` for IPv4.
  abbrev ended : List ℕ → RohcState → ℕ → Option Rebuilding → RohcState × Option (List ℕ)
  ended bytes s out_len o = elim o [ none ↦ (s, none) | some r ↦ deliver_ipv4 s bytes n out_len r ]

  ended_front :
      (s : RohcState) (out_len : ℕ) (o : Option Rebuilding)
      → ended front s out_len o ≡ ended array s out_len o
  ended_front s out_len none = refl
  ended_front s out_len (some r) = deliver_front s out_len r

  ipv4_front :
      (beyond : List ℕ) (s : RohcState) (out_len : ℕ)
      → 5 ≤ n
      → decompress_ipv4 beyond s front n out_len ≡ decompress_ipv4 beyond s array n out_len
  unfolding decompress_ipv4
  ipv4_front beyond s out_len h =
      let second : byte front 1 ≡ byte array 1 = get_or-take n array 1 0 (omega (arith, h)) in
      let size = bit_and (byte s.context 0) 0x0F * 4 in
      let start = take size (s.context ++ beyond) in
      let read = read_fields_ipv4 array n (byte array 1) start in
      ap
        (λ k.
          if ltb size 20
          then (s, none)
          else ended front s out_len (read_fields_ipv4 front n k start))
        second
      ∙ ap (λ o. if ltb size 20 then (s, none) else ended front s out_len o)
          (fields_front (byte array 1) start)
      ∙ ap (λ (e : RohcState × Option (List ℕ)). if ltb size 20 then (s, none) else e)
          (ended_front s out_len read)

  -- A packet of IPv4 whose compressed header is all there.
  pub decompress_front :
      (beyond : List ℕ) (s : RohcState) (out_len : ℕ)
      → 5 ≤ n
      → header_len_ipv4 (byte array 1) ≤ n
      → has (byte array 0) 0x80 ≡ false
      → rohc_decompress beyond s front n out_len ≡ rohc_decompress beyond s array n out_len
  unfolding rohc_decompress
  decompress_front beyond s out_len h head v4 =
      let zeroth : byte front 0 ≡ byte array 0 = get_or-take n array 0 0 (omega (arith, h)) in
      let second : byte front 1 ≡ byte array 1 = get_or-take n array 1 0 (omega (arith, h)) in
      let third : byte front 2 ≡ byte array 2 = get_or-take n array 2 0 (omega (arith, h)) in
      let short : take (header_len_ipv4 (byte array 1)) front
          ≡ take (header_len_ipv4 (byte array 1)) array =
        take_twice (header_len_ipv4 (byte array 1)) n array head in
      rw (zeroth, second, third, short, v4, ipv4_front beyond s out_len h) refl
