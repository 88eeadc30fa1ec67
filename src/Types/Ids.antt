-- ===== src/Types/Ids.antt =====
-- crates/rsrpc-types/src/app_id.rs: the ids are texts. A socket id is a pid in decimal, or the text
-- of an application id.
pub mod Decimal
use Prim.Native.Char.{Char, code}
use discord_rich_presence.Prelude.{
  ℕ, zero, suc, ◌+◌, ◌-◌, ◌*◌, ◌/◌, ◌%◌, ◌^◌, String, Option, none, some, Bool, ◌&&◌, ltb, leb, eqn,
  if◌then◌else◌, ◌>>=◌,
}

abbrev pub AppId : Type 0
AppId = String

abbrev pub SocketId : Type 0
SocketId = String

-- `From<AppId>` and `From<&AppId>`: the text is shared.
abbrev pub of_app : AppId → SocketId
of_app id = id

-- b'0' + digit
abbrev pub digit_char : ℕ → Char
digit_char zero = "0"
digit_char (suc zero) = "1"
digit_char (suc (suc zero)) = "2"
digit_char (suc (suc (suc zero))) = "3"
digit_char (suc (suc (suc (suc zero)))) = "4"
digit_char (suc (suc (suc (suc (suc zero))))) = "5"
digit_char (suc (suc (suc (suc (suc (suc zero)))))) = "6"
digit_char (suc (suc (suc (suc (suc (suc (suc zero))))))) = "7"
digit_char (suc (suc (suc (suc (suc (suc (suc (suc zero)))))))) = "8"
digit_char _ = "9"

-- The loop of `From<u64>`: digits are written from the back of the buffer, the last one first.
-- The fuel is the buffer's length: with none left `cursor -= 1` would underflow.
unfoldable pub render_from : ℕ → ℕ → String → Option String
render_from zero rest out = none
render_from (suc f) rest out =
    let out' : String = String.◌∷◌ (digit_char (rest % 10)) out in
    let more : Option String = render_from f (rest / 10) out' in
    if eqn (rest / 10) 0 then some out' else more

abbrev pub decimal_cap : ℕ
decimal_cap = 20

-- `SocketId::from(pid)`, with the panic on a full buffer as `none`.
unfoldable pub of_pid_checked : ℕ → Option SocketId
unfolding render_from
of_pid_checked pid = render_from decimal_cap pid ""

unfoldable pub of_pid : ℕ → SocketId
unfolding of_pid_checked
of_pid pid = elim (of_pid_checked pid) [ none ↦ "" | some s ↦ s ]

abbrev pub u64_mod : ℕ
u64_mod = 2 ^ 64

-- `str::parse::<u64>`: an optional `+`, at least one digit, and no overflow.
unfoldable pub parse_digits : ℕ → String → Option ℕ
parse_digits n String.[] = some n
parse_digits n (String.◌∷◌ c s) =
    let rest : Option ℕ = parse_digits (n * 10 + (code c - 48)) s in
    if leb 48 (code c) && leb (code c) 57 && ltb (n * 10 + (code c - 48)) u64_mod
    then rest
    else none

unfoldable pub parse_u64 : String → Option ℕ
unfolding parse_digits
parse_u64 String.[] = none
parse_u64 (String.◌∷◌ c String.[]) = parse_digits 0 (String.◌∷◌ c String.[])
parse_u64 (String.◌∷◌ c (String.◌∷◌ d s)) =
    if eqn (code c) 43
    then parse_digits 0 (String.◌∷◌ d s)
    else parse_digits 0 (String.◌∷◌ c (String.◌∷◌ d s))
