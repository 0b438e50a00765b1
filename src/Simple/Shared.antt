-- ===== src/Simple/Shared.antt =====
-- What the verification functions and the frame properties of several simple filters share.
use cat_syn.Prelude.{
  ℕ, zero, suc, ◌/◌, ◌%◌, ◌^◌, ◌≡◌, refl, arith, Bool, true, false, not, ◌||◌, Option, none, some,
  String, ltb, ◌==◌, if◌then◌else◌,
}
use cat_syn.Prelude.Int.{ℤ, pos, negsuc, eqb_ℤ, int_mod}
use cat_syn.Plugin.Types.{Frame}
use cat_syn.Plugin.VsMap.{prop_get_int, prop_set_int}
use Prim.Native.String.{◌++◌ as append_text}

-- `snprintf(msg, len, ...)` under a test; a later message replaces an earlier one.
unfoldable pub say : Bool → String → Option String → Option String
say true message earlier = some message
say false message earlier = earlier

digit : ℕ → String
digit n =
    if n == 0
    then "0"
    else if n == 1
    then "1"
    else if n == 2
    then "2"
    else if n == 3
    then "3"
    else if n == 4
    then "4"
    else if n == 5
    then "5"
    else if n == 6
    then "6"
    else if n == 7
    then "7"
    else if n == 8
    then "8"
    else "9"

-- The text of a number, as `%d` prints it; the fuel is more than its number of digits.
decimal : ℕ → ℕ → String
unfolding digit
decimal zero n = ""
decimal (suc fuel) n =
    let front = decimal fuel (n / 10) in
    if ltb n 10 then digit n else append_text front (digit (n % 10))

-- A message with `1 << k` in its place.
unfoldable pub mod_message : String → ℕ → String → String
unfolding decimal
mod_message front k back = append_text front (append_text (decimal (suc k) (2 ^ k)) back)

-- `a % (1 << k)`, as a test.
abbrev pub leaves_rest : ℤ → ℕ → Bool
leaves_rest a k = not (eqb_ℤ (int_mod a (pos (2 ^ k))) (pos 0))

-- `a & 1`, as a test.
unfoldable pub is_odd : ℤ → Bool
is_odd (pos n) = (n % 2) == 1
is_odd (negsuc n) = (n % 2) == 0

-- Top field first becomes bottom field first, and the other way round.
unfoldable pub swap_fields : Frame → Frame
swap_fields dst =
    let fb = (prop_get_int dst.props "_FieldBased" 0).0 in
    if eqb_ℤ fb (pos 1) || eqb_ℤ fb (pos 2)
    then record dst {
      props = prop_set_int dst.props "_FieldBased" (if eqb_ℤ fb (pos 1) then pos 2 else pos 1);
    }
    else dst

-- No message: the test fails, and there was none before.
pub say-none :
    (b : Bool) (message : String) (earlier : Option String)
    → say b message earlier ≡ none
    → (b ≡ false) × (earlier ≡ none)
unfolding say
say-none true message earlier e = cc e
say-none false message earlier e = (refl, e)

-- Only the properties change.
pub swapped :
    (b : Bool) (f : Frame)
    → (if b then swap_fields f else f) ≡ record f { props = (if b then swap_fields f else f).props }
unfolding swap_fields
swapped true f = ground arith
swapped false f = refl
