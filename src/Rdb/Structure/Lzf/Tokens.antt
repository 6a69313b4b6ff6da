-- ===== src/Rdb/Structure/Lzf/Tokens.antt =====
-- What an LZF stream means: runs of literal bytes, and copies of what is already there.
use rdb_elasticache_migrator.Prelude.{
  ℕ, zero, suc, ◌+◌, ◌-◌, ◌*◌, ◌/◌, ◌%◌, ◌≤◌, List, [], ◌∷◌, ◌++◌, ltb, if◌then◌else◌, length,
  get_or,
}
use rdb_elasticache_migrator.Runtime.{Bytes}

-- `back d n` repeats, n times, the byte that stands d places back.
pub data Token : Type 0 where
  literal : Bytes → Token
  back : ℕ → ℕ → Token

unfoldable pub extend : ℕ → ℕ → Bytes → Bytes
extend zero d out = out
extend (suc n) d out = extend n d (out ++ get_or out (length out - d) 0 ∷ [])

unfoldable pub expand_token : Token → Bytes → Bytes
expand_token (literal xs) out = out ++ xs
expand_token (back d n) out = extend n d out

unfoldable pub expand : List Token → Bytes → Bytes
expand [] out = out
expand (t ∷ ts) out = expand ts (expand_token t out)

-- The bytes of a token: a control byte, one more length byte if the copy is long, the distance.
unfoldable pub encode_token : Token → Bytes
encode_token (literal xs) = (length xs - 1) ∷ xs
encode_token (back d n) =
    if ltb n 9
    then ((n - 2) * 32 + (d - 1) / 256) ∷ (d - 1) % 256 ∷ []
    else (224 + (d - 1) / 256) ∷ (n - 9) ∷ (d - 1) % 256 ∷ []

unfoldable pub encode : List Token → Bytes
encode [] = []
encode (t ∷ ts) = encode_token t ++ encode ts

-- The limits of the format, and no copy from before the start.
abbrev pub Fits : Token → Bytes → Type 0
Fits (literal xs) out = (1 ≤ length xs) × (length xs ≤ 32)
Fits (back d n) out = (1 ≤ d) × (d ≤ 8192) × (d ≤ length out) × (3 ≤ n) × (n ≤ 264)

abbrev pub AllFit : List Token → Bytes → Type 0
AllFit [] out = Unit
AllFit (t ∷ ts) out = Fits t out × AllFit ts (expand_token t out)
