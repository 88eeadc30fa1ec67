-- ===== src/Types/Ids/Decimal.antt =====
-- The decimal text of a pid reads back as the pid, and fits the buffer.
use Prim.Native.Char.{Char, code}
use native.Mathlib.Nat.{pow-suc}
use discord_rich_presence.Prelude.{
  ℕ, zero, suc, ◌+◌, ◌-◌, ◌*◌, ◌/◌, ◌%◌, ◌^◌, ◌<◌, ◌≡◌, ◌≢◌, refl, String, some, arith, eqn,
  eqn_iff, Bool-cases, inl, inr, ◌∙◌,
}
use discord_rich_presence.Types.Ids.{
  digit_char, render_from, of_pid_checked, of_pid, u64_mod, parse_digits, parse_u64,
}

code-digit_char : (d : ℕ) → d < 10 → code (digit_char d) ≡ d + 48
code-digit_char zero h = refl
code-digit_char (suc zero) h = refl
code-digit_char (suc (suc zero)) h = refl
code-digit_char (suc (suc (suc zero))) h = refl
code-digit_char (suc (suc (suc (suc zero)))) h = refl
code-digit_char (suc (suc (suc (suc (suc zero))))) h = refl
code-digit_char (suc (suc (suc (suc (suc (suc zero)))))) h = refl
code-digit_char (suc (suc (suc (suc (suc (suc (suc zero))))))) h = refl
code-digit_char (suc (suc (suc (suc (suc (suc (suc (suc zero)))))))) h = refl
code-digit_char (suc (suc (suc (suc (suc (suc (suc (suc (suc n))))))))) h = ground arith

-- One digit in front is one step of the parser.
parse_digits-digit :
    (n m : ℕ) (c : Char) (s : String)
    → code c ≡ n % 10 + 48
    → m ≡ n / 10
    → n < u64_mod
    → parse_digits m (String.◌∷◌ c s) ≡ parse_digits n s
unfolding parse_digits
parse_digits-digit n m c s e q h =
    let total : m * 10 + (code c - 48) ≡ n = omega arith in ground arith

record IsRendered (n : ℕ) (out s : String) : Type 0 where
  reads : parse_digits 0 s ≡ parse_digits n out
  plain : parse_u64 s ≡ parse_digits 0 s

plain_of_digit :
    (c : Char) (s : String)
    → code c ≢ 43
    → parse_u64 (String.◌∷◌ c s) ≡ parse_digits 0 (String.◌∷◌ c s)
unfolding parse_u64
plain_of_digit c String.[] h = refl
plain_of_digit c (String.◌∷◌ d s) h = ground arith

module _ (n : ℕ) (out : String) (small : n < u64_mod) where
  abbrev last_char : Char
  last_char = digit_char (n % 10)

  abbrev longer : String
  longer = String.◌∷◌ last_char out

  reads_longer :
      (s : String)
      → parse_digits 0 s ≡ parse_digits (n / 10) longer
      → parse_digits 0 s ≡ parse_digits n out
  reads_longer s e =
      e
      ∙ parse_digits-digit n (n / 10) last_char out (code-digit_char (n % 10) (omega arith)) refl
          small

  -- The digit that is written last is the first one of the text.
  first_digit : n / 10 ≡ 0 → IsRendered n out longer
  first_digit q = record {
    reads = reads_longer longer (rw q);
    plain = plain_of_digit last_char out (omega (arith, code-digit_char (n % 10) (omega arith)));
  }

render_from_lem :
    (f n : ℕ) (out : String)
    → n < 10 ^ suc f
    → n < u64_mod
    → (s : String) × (render_from (suc f) n out ≡ some s) × IsRendered n out s
unfolding render_from
render_from_lem zero n out h k =
    let q : n / 10 ≡ 0 = omega (arith, pow-suc 10 0) in
    (longer n out k, rw q, first_digit n out k q)
render_from_lem (suc f) n out h k = elim (Bool-cases (eqn (n / 10) 0)) [
  | inl last ↦ (longer n out k, rw last, first_digit n out k ((eqn_iff (n / 10) 0).0 last))
  | inr more ↦
      let (s, rendered, r) =
        render_from_lem f (n / 10) (longer n out k) (omega (arith, pow-suc 10 (suc f)))
          (omega arith) in
      (s, rw (more, rendered), record { reads = reads_longer n out k s r.reads; plain = r.plain })
]

-- Rendering a u64 never runs out of the 20 bytes of its buffer, and the text parses back to the
-- number.
pub parse_u64-of_pid :
    (n : ℕ) → n < u64_mod → (of_pid_checked n ≡ some (of_pid n)) × (parse_u64 (of_pid n) ≡ some n)
unfolding of_pid parse_digits
parse_u64-of_pid n h =
    let (s, rendered, r) = render_from_lem 19 n "" (omega arith) h in
    (rw (rendered, of_pid), rw (rendered, of_pid) (r.plain ∙ r.reads))

-- Distinct pids have distinct socket ids.
pub of_pid_injective : (n m : ℕ) → n < u64_mod → m < u64_mod → of_pid n ≡ of_pid m → n ≡ m
of_pid_injective n m h k e = ground (arith, parse_u64-of_pid n h, parse_u64-of_pid m k)
