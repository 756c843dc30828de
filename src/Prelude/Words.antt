-- ===== src/Prelude/Words.antt =====
-- Bytes, and words in network byte order (`htons`, `htonl` and their inverses). A word is the
-- number that it stands for, and its bytes in memory stand most significant first.
use Prim.Native.Nat.{ℕ, ◌+◌, ◌*◌, ◌/◌, ◌%◌, ◌^◌, ◌<◌}
use mathlib.Core.Path.{◌≡◌}
use mathlib.Core.List.{List, [], ◌∷◌}
use native.Mathlib.Omega.{arith}
use koruza_driver.Prelude.Lists.{All, get_or}

abbrev pub Bytes : Type 0
Bytes = List ℕ

abbrev pub IsByte : ℕ → Type 0
IsByte b = b < 256

abbrev pub IsBytes : Bytes → Type 0
IsBytes = All IsByte

abbrev pub u8 : ℕ → ℕ
u8 n = n % 2 ^ 8

abbrev pub u16 : ℕ → ℕ
u16 n = n % 2 ^ 16

abbrev pub u32 : ℕ → ℕ
u32 n = n % 2 ^ 32

-- `htons`: the memory of a 16-bit word.
abbrev pub be16 : ℕ → Bytes
be16 w = (w / 2 ^ 8 % 2 ^ 8) ∷ (w % 2 ^ 8) ∷ []

-- `htonl`: the memory of a 32-bit word.
abbrev pub be32 : ℕ → Bytes
be32 w = (w / 2 ^ 24 % 2 ^ 8) ∷ (w / 2 ^ 16 % 2 ^ 8) ∷ (w / 2 ^ 8 % 2 ^ 8) ∷ (w % 2 ^ 8) ∷ []

-- `ntohs` and `ntohl` of the word whose memory these bytes are.
abbrev pub word16 : ℕ → ℕ → ℕ
word16 a b = a * 2 ^ 8 + b

abbrev pub word32 : ℕ → ℕ → ℕ → ℕ → ℕ
word32 a b c d = a * 2 ^ 24 + b * 2 ^ 16 + c * 2 ^ 8 + d

-- The 32-bit word at a byte offset of a structure.
abbrev pub word32_at : Bytes → ℕ → ℕ
word32_at bs i =
    word32 (get_or bs i 0) (get_or bs (i + 1) 0) (get_or bs (i + 2) 0) (get_or bs (i + 3) 0)

pub word16-be16 : (w : ℕ) → w < 2 ^ 16 → word16 (w / 2 ^ 8 % 2 ^ 8) (w % 2 ^ 8) ≡ w
word16-be16 w h = omega arith

pub word32-be32 :
    (w : ℕ)
    → w < 2 ^ 32
    → word32 (w / 2 ^ 24 % 2 ^ 8) (w / 2 ^ 16 % 2 ^ 8) (w / 2 ^ 8 % 2 ^ 8) (w % 2 ^ 8) ≡ w
word32-be32 w h = omega arith

pub be16-IsBytes : (w : ℕ) → IsBytes (be16 w)
be16-IsBytes w = omega arith

pub be32-IsBytes : (w : ℕ) → IsBytes (be32 w)
be32-IsBytes w = omega arith
