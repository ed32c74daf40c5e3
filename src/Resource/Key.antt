-- ===== src/Resource/Key.antt =====
-- `partitionCanonicalKey` of src/resource/partition.ts. `encodeURIComponent` writes a character that
-- is not reserved as itself and any other as the bytes of its UTF-8; the replacement behind it
-- leaves `/` as it is.
use metaclaw.Base.{
  ℕ, zero, suc, ◌+◌, ◌/◌, ◌%◌, Bool, ◌&&◌, ◌||◌, if◌then◌else◌, Option, some, ltb, leb, eqb, String,
  ◌⧺◌, List, [], ◌∷◌, map, join,
}
use Prim.Native.Char.{code}
use metaclaw.Host.{Host}
use metaclaw.Resource.{PartitionIdentity, repository, worktree, path, logical, external_object}
use metaclaw.Resource.Partition.{◌>>=◌, normalize_partition_identity}

char_at : ℕ → String → String
char_at n String.[] = ""
char_at zero (String.◌∷◌ c s) = String.◌∷◌ c ""
char_at (suc n) (String.◌∷◌ c s) = char_at n s

percent : ℕ → String
unfolding char_at
percent byte = "%" ⧺ char_at (byte / 16) "0123456789ABCDEF" ⧺ char_at (byte % 16) "0123456789ABCDEF"

unfoldable pub utf8 : ℕ → List ℕ
utf8 c =
    if ltb c 0x80
    then c ∷ []
    else if ltb c 0x800
    then (0xc0 + c / 0x40) ∷ (0x80 + c % 0x40) ∷ []
    else if ltb c 0x10000
    then (0xe0 + c / 0x1000) ∷ (0x80 + c / 0x40 % 0x40) ∷ (0x80 + c % 0x40) ∷ []
    else (0xf0 + c / 0x40000)
      ∷ (0x80 + c / 0x1000 % 0x40)
      ∷ (0x80 + c / 0x40 % 0x40)
      ∷ (0x80 + c % 0x40)
      ∷ []

is_kept : ℕ → Bool
is_kept c =
    (leb b'a' c && leb c b'z')
    || (leb b'A' c && leb c b'Z')
    || (leb b'0' c && leb c b'9')
    || eqb c b'-'
    || eqb c b'_'
    || eqb c b'.'
    || eqb c b'!'
    || eqb c b'~'
    || eqb c b'*'
    || eqb c 39
    || eqb c b'('
    || eqb c b')'
    || eqb c b'/'

unfoldable pub encode : String → String
unfolding percent utf8 is_kept
encode String.[] = ""
encode (String.◌∷◌ c s) =
    if is_kept (code c)
    then String.◌∷◌ c (encode s)
    else join "" (map percent (utf8 (code c))) ⧺ encode s

key_of : PartitionIdentity → String
unfolding encode join
key_of (repository r) = "repository:" ⧺ encode r
key_of (worktree r w) = "worktree:" ⧺ encode r ⧺ ":" ⧺ encode w
key_of (path m p) = "path:" ⧺ encode m ⧺ ":" ⧺ encode p
key_of (logical n k) = "logical:" ⧺ encode n ⧺ ":" ⧺ encode k
key_of (external_object p a c o) = join ":" (map encode ("external_object" ∷ p ∷ a ∷ c ∷ o ∷ []))

unfoldable pub partition_canonical_key : Host → PartitionIdentity → Option String
unfolding normalize_partition_identity key_of
partition_canonical_key host identity =
    normalize_partition_identity host identity >>= λ normalized. some (key_of normalized)
