-- ===== src/Link/Times.antt =====
-- The times at which the bits of a run come, and a run in two parts.
use echo_protocol.Base.{
  ℕ, zero, suc, ◌+◌, ◌*◌, ◌^◌, ◌≤◌, ◌<◌, ◌≡◌, refl, sym, ap, ap₂, ◌∙◌, arith, List, [], ◌∷◌, ◌++◌,
  length, take, drop, length-append, take_prefix, drop_prefix, AllBits,
}
use echo_protocol.Ring.{Buffer}
use echo_protocol.Ring.Refine.{contents, bits_from}
use echo_protocol.Receiver.{Receiver, process_rx_bit}
use echo_protocol.Receiver.Frame.{hear, IsTimely}
use echo_protocol.Receiver.Search.{last_of}
use echo_protocol.Modem.Symbols.{flatten, AllOf}
use echo_protocol.Callback.Air.{doubled}

pub hear-append :
    (xs ys : List ℕ) (ts : List ℕ) (r : Receiver)
    → length xs ≤ length ts
    → hear r ts (xs ++ ys) ≡ hear (hear r (take (length xs) ts) xs) (drop (length xs) ts) ys
unfolding hear
hear-append [] ys ts r h = refl
hear-append (x ∷ xs) ys [] r h = absurd (omega (arith, h))
hear-append (x ∷ xs) ys (t ∷ ts) r h =
    hear-append xs ys ts (process_rx_bit t r x) (omega (arith, h))

pub IsTimely-drop :
    (n last : ℕ) (ts : List ℕ)
    → n ≤ length ts
    → IsTimely last ts
    → IsTimely (last_of last (take n ts)) (drop n ts)
unfolding last_of
IsTimely-drop zero last ts h on = on
IsTimely-drop (suc n) last [] h on = absurd (omega (arith, h))
IsTimely-drop (suc n) last (t ∷ ts) h on = IsTimely-drop n t ts (omega (arith, h)) on.2

pub last_of-lt :
    (n last : ℕ) (ts : List ℕ)
    → last < 2 ^ 32
    → IsTimely last ts
    → last_of last (take n ts) < 2 ^ 32
unfolding last_of
last_of-lt zero last ts h on = h
last_of-lt (suc n) last [] h on = h
last_of-lt (suc n) last (t ∷ ts) h on = last_of-lt n t ts on.1 on.2

pub length-doubled : (ts : List ℕ) → length (doubled ts) ≡ 2 * length ts
length-doubled [] = refl
length-doubled (t ∷ ts) = omega (arith, length-doubled ts)

bits_from-AllBits : (m : ℕ → ℕ) (n i : ℕ) → AllBits (bits_from m i n)
bits_from-AllBits m zero i = tt
bits_from-AllBits m (suc n) i = (omega arith, bits_from-AllBits m n (i + 1))

pub contents-AllBits : (b : Buffer) → AllBits (contents b)
contents-AllBits b = bits_from-AllBits b.buf _ _

-- Lists of one length are known from their concatenation.
pub flatten-AllOf :
    {A : Type 0} (n : ℕ) (xss yss : List (List A))
    → 0 < n
    → AllOf n xss
    → AllOf n yss
    → flatten xss ≡ flatten yss
    → xss ≡ yss
flatten-AllOf n [] [] p v w e = refl
flatten-AllOf n [] (ys ∷ yss) p v w e =
    absurd (omega (arith, ap length e, length-append ys (flatten yss), w.0))
flatten-AllOf n (xs ∷ xss) [] p v w e =
    absurd (omega (arith, ap length e, length-append xs (flatten xss), v.0))
flatten-AllOf n (xs ∷ xss) (ys ∷ yss) p v w e =
    let first =
      sym (take_prefix xs (flatten xss) n v.0)
      ∙ ap (take n) e
      ∙ take_prefix ys (flatten yss) n w.0 in
    let rest =
      sym (drop_prefix xs (flatten xss) n v.0)
      ∙ ap (drop n) e
      ∙ drop_prefix ys (flatten yss) n w.0 in
    ap₂ ◌∷◌ first (flatten-AllOf n xss yss p v.1 w.1 rest)
