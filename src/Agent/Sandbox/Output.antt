-- ===== src/Agent/Sandbox/Output.antt =====
-- `truncate` of src/agent/sandbox/sandbox.service.ts, with the UTF-8 widths and the decoding of a cut
-- text that Buffer does.
use Prim.Native.Nat.{ℕ, ◌+◌, ◌-◌, ◌*◌, ◌≤◌, ◌<◌}
use Prim.Native.Char.{Char, code}
use text.Mathlib.TextLemmas.{nil-append, cons-append}
use lotus_build_server.Base.{
  String, ◌<>◌, ◌≡◌, refl, true, leb, ltb, nat_eq, if◌then◌else◌, arith, Bool-cases, inl, inr, ◌⊎◌,
}
use lotus_build_server.Base.Text.{decimal}

abbrev pub max_output_bytes : ℕ
max_output_bytes = 64 * 1024

-- the bytes of a character in UTF-8
unfoldable pub width : Char → ℕ
width c =
    if ltb (code c) 0x80
    then 1
    else if ltb (code c) 0x800
    then 2
    else if ltb (code c) 0x10000
    then 3
    else 4

-- `Buffer.byteLength(text, 'utf-8')`
unfoldable pub byte_length : String → ℕ
byte_length String.[] = 0
byte_length (String.◌∷◌ c s) = width c + byte_length s

-- `Buffer.from(text).subarray(0, n).toString()`: a character that is cut is decoded as U+FFFD
unfoldable pub cut : ℕ → String → String
cut n String.[] = ""
cut n (String.◌∷◌ c s) =
    if leb (width c) n then String.◌∷◌ c (cut (n - width c) s) else if nat_eq n 0 then "" else "�"

abbrev pub notice : String
notice = "\n[output truncated at " <> decimal max_output_bytes <> " bytes]"

unfoldable pub truncate : String → String
unfolding width byte_length cut decimal
truncate text =
    if leb (byte_length text) max_output_bytes then text else cut max_output_bytes text <> notice

pub byte_length-append : (s t : String) → byte_length (s <> t) ≡ byte_length s + byte_length t
unfolding byte_length
byte_length-append String.[] t = rw nil-append (omega arith)
byte_length-append (String.◌∷◌ c s) t =
    rw (cons-append, byte_length) (omega (arith, byte_length-append s t))

byte_length_replacement : byte_length "�" ≡ 3
unfolding byte_length width
byte_length_replacement = refl

leb→le : (a b : ℕ) → leb a b ≡ true → a ≤ b
leb→le a b h = ground arith

cut_step :
    (n : ℕ) (c : Char) (s : String)
    → byte_length (cut (n - width c) s) ≤ n - width c + 2
    → byte_length (cut n (String.◌∷◌ c s)) ≤ n + 2
unfolding byte_length cut
cut_step n c s ih = elim (Bool-cases (leb (width c) n)) [
  | inl fits ↦ rw fits (omega (arith, ih, leb→le (width c) n fits))
  | inr too_wide ↦ rw too_wide (elim (Bool-cases (nat_eq n 0)) [
    | inl none_left ↦ rw none_left (omega arith)
    | inr some_left ↦ rw some_left (ground (arith, byte_length_replacement))
  ])
]

-- A cut text has the bytes that were kept, and at most two more for the character that was cut.
byte_length-cut : (n : ℕ) (s : String) → byte_length (cut n s) ≤ n + 2
unfolding byte_length cut
byte_length-cut n String.[] = omega arith
byte_length-cut n (String.◌∷◌ c s) = cut_step n c s (byte_length-cut (n - width c) s)

byte_length-notice : byte_length notice ≡ 34
unfolding byte_length width decimal
byte_length-notice = refl

-- A text of at most 64 KiB is passed on unchanged, and any other comes out with at most 64 KiB and the
-- 36 bytes of the notice and of a cut character.
pub truncate_bounds :
    (text : String)
    → ((truncate text ≡ text) ⊎ (max_output_bytes < byte_length text))
      × (byte_length (truncate text) ≤ max_output_bytes + 36)
unfolding truncate
truncate_bounds text = elim (Bool-cases (leb (byte_length text) max_output_bytes)) [
  | inl short ↦ rw short (inl refl, omega (arith, leb→le (byte_length text) max_output_bytes short))
  | inr long ↦ rw long (
    inr (ground (arith, long)),
    rw byte_length-append
        (omega (arith, byte_length-cut max_output_bytes text, byte_length-notice)),
  )
]
