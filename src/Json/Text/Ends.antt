-- ===== src/Json/Text/Ends.antt =====
-- The string parser ends within its fuel and takes at least one byte.
use gbin.Prelude.{
  ◌&&◌, ℕ, zero, suc, ◌≤◌, ◌<◌, ◌≢◌, arith, Bool, true, false, [], ◌∷◌, Option, none, some, Bytes,
  length, length-drop, drop, ltb, leb, ◌==◌, if◌then◌else◌, ok, err, ◌>>=◌, Bool-cases, inl, inr,
  not,
}
use gbin.Error.{JsonError, out_of_fuel}
use gbin.Json.Text.{
  Parsed, StringStep, more, finished, failed, skip_ws, surrogates, low_surrogate, join_surrogates,
  hex_digits, simple_escape, append_escape, append_simple, on_step, escape_step, string_step,
  string_loop, parse_string,
}

-- The parser did not run out of fuel, and what it leaves is shorter than n.
pub data Ends {A : Type 0} (n : ℕ) : Parsed A → Type 0 where
  ends : {a : A} {q : Bytes} → length q < n → Ends n (ok (a, q))
  rejects : {e : JsonError} → e ≢ out_of_fuel → Ends n (err e)

pub Ends-bind :
    {A B : Type 0} {m n : ℕ} {r : Parsed A} (f : A × Bytes → Parsed B)
    → Ends m r
    → ((a : A) (q : Bytes) → length q < m → Ends n (f (a, q)))
    → Ends n (r >>= f)
Ends-bind f (ends {a} {q} h) k = k a q h
Ends-bind f (rejects h) k = rejects h

pub Ends-if :
    {A : Type 0} {n : ℕ} (b : Bool) {x y : Parsed A}
    → Ends n x
    → Ends n y
    → Ends n (if b then x else y)
Ends-if true hx hy = hx
Ends-if false hx hy = hy

pub Ends-mono : {A : Type 0} {m n : ℕ} {r : Parsed A} → m ≤ n → Ends m r → Ends n r
Ends-mono le (ends h) = ends (omega arith)
Ends-mono le (rejects h) = rejects h

pub length-skip_ws : (p : Bytes) → length (skip_ws p) ≤ length p
unfolding skip_ws
length-skip_ws [] = omega arith
length-skip_ws (c ∷ p) = ground (arith, length-skip_ws p)

-- A round leaves fewer than n bytes, and does not report the lack of fuel.
data StepEnds (n : ℕ) : StringStep → Type 0 where
  goes_on : {sb q : Bytes} → length q < n → StepEnds n (more sb q)
  stops : {s q : Bytes} → length q < n → StepEnds n (finished s q)
  fails : {e : JsonError} → e ≢ out_of_fuel → StepEnds n (failed e)

StepEnds-if :
    {n : ℕ} (b : Bool) {x y : StringStep}
    → StepEnds n x
    → StepEnds n y
    → StepEnds n (if b then x else y)
StepEnds-if true hx hy = hx
StepEnds-if false hx hy = hy

length-join_surrogates :
    (cp : ℕ) (p : Bytes) (o : Option ℕ) → length (join_surrogates cp p o).1 ≤ length p
length-join_surrogates cp p none = omega arith
length-join_surrogates cp p (some lo) = omega (arith, length-drop 6 p)

length-surrogates : (cp : ℕ) (p : Bytes) → length (surrogates cp p).1 ≤ length p
unfolding surrogates
length-surrogates cp p = elim (Bool-cases (leb 0xD800 cp && leb cp 0xDBFF)) [
  | inl high ↦ rw high (length-join_surrogates cp p (low_surrogate p))
  | inr other ↦ rw other (omega arith)
]

append_escape-StepEnds :
    (sb p : Bytes) (n : ℕ) (o : Option ℕ) → length p < n → StepEnds n (append_escape sb p o)
append_escape-StepEnds sb p n none h = fails (λ e. cc)
append_escape-StepEnds sb p n (some cp) h =
    goes_on (omega (arith, length-surrogates cp (drop 4 p), length-drop 4 p))

append_simple-StepEnds :
    (sb p : Bytes) (n : ℕ) (o : Option ℕ) → length p < n → StepEnds n (append_simple sb p o)
append_simple-StepEnds sb p n none h = fails (λ e. cc)
append_simple-StepEnds sb p n (some c) h = goes_on h

escape_step-StepEnds : (sb p : Bytes) → StepEnds (suc (length p)) (escape_step sb p)
unfolding escape_step
escape_step-StepEnds sb [] = fails (λ e. cc)
escape_step-StepEnds sb (c ∷ p) =
    StepEnds-if (c == b'u')
      (StepEnds-if (ltb (length p) 4) (fails (λ e. cc))
        (append_escape-StepEnds sb p _ (hex_digits 4 0 p) (omega arith)))
      (append_simple-StepEnds sb p _ (simple_escape c) (omega arith))

string_step-StepEnds : (sb p : Bytes) → StepEnds (length p) (string_step sb p)
unfolding string_step
string_step-StepEnds sb [] = fails (λ e. cc)
string_step-StepEnds sb (c ∷ p) = StepEnds-if (c == 34) (stops (omega arith)) (
    StepEnds-if (ltb c 0x20) (fails (λ e. cc))
      (StepEnds-if (not (c == 92)) (goes_on (omega arith)) (escape_step-StepEnds sb p)))

on_step-Ends :
    {n : ℕ} {st : StringStep} (loop : Bytes → Bytes → Parsed Bytes)
    → StepEnds n st
    → ((sb q : Bytes) → length q < n → Ends n (loop sb q))
    → Ends n (on_step loop st)
on_step-Ends loop (goes_on {sb} {q} h) k = k sb q h
on_step-Ends loop (stops h) k = ends h
on_step-Ends loop (fails h) k = rejects h

string_loop-Ends : (f : ℕ) (sb p : Bytes) → length p < f → Ends (length p) (string_loop f sb p)
unfolding string_loop
string_loop-Ends zero sb p h = absurd (omega arith)
string_loop-Ends (suc f) sb p h =
    on_step-Ends (λ sb' q. string_loop f sb' q) (string_step-StepEnds sb p)
      λ sb' q lt. Ends-mono (omega arith) (string_loop-Ends f sb' q (omega arith))

pub parse_string-Ends : (p : Bytes) → Ends (length p) (parse_string p)
unfolding parse_string
parse_string-Ends [] = rejects (λ e. cc)
parse_string-Ends (c ∷ p) =
    Ends-if (c == 34)
      (Ends-mono (omega arith) (string_loop-Ends (suc (length p)) [] p (omega arith)))
      (rejects (λ e. cc))
