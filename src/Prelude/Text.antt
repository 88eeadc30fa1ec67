-- ===== src/Prelude/Text.antt =====
-- Text as code points, where the program walks characters.
use Prim.Native.Char.{code}
use Prim.Native.Nat.{ℕ, ◌+◌}
use Prim.Native.String.{String}
use mathlib.Core.Bool.{Bool, ◌&&◌, ◌||◌}
use mathlib.Core.List.{List, [], ◌∷◌}
use discord_rich_presence.Prelude.Tests.{leb, eqn, if◌then◌else◌}

abbrev pub Bytes : Type 0
Bytes = List ℕ

-- The code points of a text. Where the source walks bytes, these stand for them: UTF-8 encodes no
-- character inside another.
abbrev pub codes : String → Bytes
codes String.[] = []
codes (String.◌∷◌ c s) = code c ∷ codes s

-- `to_ascii_lowercase` of one character.
abbrev pub lower : ℕ → ℕ
lower c = if leb 65 c && leb c 90 then c + 32 else c

-- Unicode's `White_Space`, which `str::trim` goes by.
abbrev pub is_whitespace : ℕ → Bool
is_whitespace c =
    leb 9 c && leb c 13
    || eqn c 32
    || eqn c 133
    || eqn c 160
    || eqn c 5760
    || leb 8192 c && leb c 8202
    || eqn c 8232
    || eqn c 8233
    || eqn c 8239
    || eqn c 8287
    || eqn c 12288
