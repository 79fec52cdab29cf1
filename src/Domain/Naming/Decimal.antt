-- ===== src/Domain/Naming/Decimal.antt =====
-- Ports as text: `Port.String` and `ParsePort`.
use Prim.Native.Char.{Char, code}
use Prim.Native.Nat.{◌/◌}
use seelf.Prelude.{
  sym, ℕ, zero, suc, ◌+◌, ◌*◌, ◌%◌, ◌≤◌, ◌<◌, ap, String, ◌≡◌, refl, some, arith, ltb, ok,
  Bool-cases, inl, inr, ◌∙◌,
}
use seelf.Domain.Naming.{
  to_char, digit, digits, port_string, max_port, scan, or_invalid, parse_port,
}

code-to_char : (n : ℕ) → n < 55296 → code (to_char n) ≡ n
unfolding to_char
code-to_char n h = ground arith

code-digit : (d : ℕ) → d < 10 → code (digit d) ≡ b'0' + d
unfolding digit
code-digit d h = code-to_char (b'0' + d) (omega arith)

-- Reading a digit behind `n`.
scan-digit :
    (d n : ℕ) (s : String)
    → d < 10
    → n * 10 + d ≤ max_port
    → scan (String.◌∷◌ (digit d) s) n ≡ scan s (n * 10 + d)
unfolding scan
scan-digit d n s h fits = ground (arith, code-digit d h)

scan-digits :
    (fuel n : ℕ) (out : String) → n < fuel → n ≤ max_port → scan (digits fuel n out) 0 ≡ scan out n
unfolding digits
scan-digits zero n out h fits = absurd (omega arith)
scan-digits (suc fuel) n out h fits = elim (Bool-cases (ltb n 10)) [
  | inl small ↦
      rw small (scan-digit n 0 out (ground arith) (omega arith) ∙ ap (scan out) (omega arith))
  | inr large ↦ rw large (
      scan-digits fuel (n / 10) (String.◌∷◌ (digit (n % 10)) out) (ground arith) (omega arith)
      ∙ (scan-digit (n % 10) (n / 10) out (omega arith) (omega arith)
          ∙ ap (scan out) (omega arith)))
]

parse-scan :
    (c : Char) (s : String) (p : ℕ)
    → scan (String.◌∷◌ c s) 0 ≡ some p
    → parse_port (String.◌∷◌ c s) ≡ ok p
unfolding parse_port
parse-scan c s p h = ap or_invalid h

digits-cons :
    (fuel n : ℕ) (out : String)
    → (c : Char) × (s : String) × (digits (suc fuel) n out ≡ String.◌∷◌ c s)
unfolding digits
digits-cons zero n out = elim (Bool-cases (ltb n 10)) [
  | inl small ↦ (digit n, out, rw small)
  | inr large ↦ (digit (n % 10), out, rw large)
]
digits-cons (suc fuel) n out = elim (Bool-cases (ltb n 10)) [
  | inl small ↦ (digit n, out, rw small)
  | inr large ↦
      let (c, s, e) = digits-cons fuel (n / 10) (String.◌∷◌ (digit (n % 10)) out) in
      (c, s, rw large e)
]

scan-nil : (n : ℕ) → scan "" n ≡ some n
unfolding scan
scan-nil n = refl

-- A port of 64 bits that is printed is read back as it was.
pub parse_port-port_string : (p : ℕ) → p ≤ max_port → parse_port (port_string p) ≡ ok p
unfolding port_string
parse_port-port_string p h =
    let (c, s, e) = digits-cons p p "" in
    rw e (
      parse-scan c s p
        (ap (λ t. scan t 0) (sym e) ∙ (scan-digits (suc p) p "" (omega arith) h ∙ scan-nil p)))
