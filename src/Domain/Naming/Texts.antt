-- ===== src/Domain/Naming/Texts.antt =====
-- Texts: what stands behind the last separator, and suffixes.
use Prim.Native.Char.{Char, code}
use Prim.Native.String.{◌++◌}
use text.Mathlib.TextLemmas.{nil-append, cons-append}
use seelf.Prelude.{
  ℕ, String, ◌≡◌, refl, ap, ◌∙◌, true, false, ◌||◌, arith, string_eq, String-discrete,
}
use seelf.Domain.Naming.{has_char, after_last, has_suffix}

pub after_last_none : (sep : ℕ) (s : String) → has_char sep s ≡ false → after_last sep s ≡ s
unfolding after_last
after_last_none sep String.[] h = refl
after_last_none sep (String.◌∷◌ c s) h = ground arith

pub has_char-append :
    (sep : ℕ) (s t : String) → has_char sep (s ++ t) ≡ (has_char sep s || has_char sep t)
unfolding has_char
has_char-append sep String.[] t = ap (has_char sep) (nil-append t)
has_char-append sep (String.◌∷◌ c s) t =
    ap (has_char sep) (cons-append c s t) ∙ ground (arith, has_char-append sep s t)

-- What stands behind a separator, where the rest has none.
pub after_last-append :
    (sep : Char) (s r : String)
    → has_char (code sep) r ≡ false
    → after_last (code sep) (s ++ String.◌∷◌ sep r) ≡ r
unfolding after_last
after_last-append sep String.[] r h =
    ap (after_last (code sep)) (nil-append (String.◌∷◌ sep r)) ∙ ground arith
after_last-append sep (String.◌∷◌ c s) r h =
    let rest = String.◌∷◌ sep r in
    ap (after_last (code sep)) (cons-append c s rest)
    ∙ ground (arith, has_char-append (code sep) s rest, after_last-append sep s r h)

has_suffix_self : (s : String) → has_suffix s s ≡ true
unfolding has_suffix String-discrete
has_suffix_self String.[] = refl
has_suffix_self (String.◌∷◌ c s) = ground arith

pub has_suffix-append : (s t : String) → has_suffix (s ++ t) t ≡ true
unfolding has_suffix
has_suffix-append String.[] t = ap (λ r. has_suffix r t) (nil-append t) ∙ has_suffix_self t
has_suffix-append (String.◌∷◌ c s) t =
    ap (λ r. has_suffix r t) (cons-append c s t) ∙ ground (arith, has_suffix-append s t)
