-- ===== src/Kernel/Failure.antt =====
-- src/core/kernel-failure.ts: the bounded failure fact.
use metaclaw.Base.{
  ℕ, Bool, false, ◌||◌, ◌&&◌, if◌then◌else◌, String, ◌⧺◌, leb, eqb, ltb, is_empty, slice_units,
}
use Prim.Native.Char.{code}

pub data FailureKind : Type 0 where
  network timeout infrastructure heartbeat_lost permission authentication configuration adapter
        capability_mismatch task_failed quality_failed cancelled stale unknown :
      FailureKind

pub data FailureScope : Type 0 where
  attempt task agent_class : FailureScope

pub record KernelFailure : Type 0 where
  pub kind : FailureKind
  pub scope : FailureScope
  pub code : String
  pub summary : String

is_code_unit : ℕ → Bool
is_code_unit c =
    (leb b'a' c && leb c b'z')
    || (leb b'A' c && leb c b'Z')
    || (leb b'0' c && leb c b'9')
    || eqb c b'_'
    || eqb c b'.'
    || eqb c b':'
    || eqb c b'-'

-- `replace(/[^a-zA-Z0-9_.:-]/g, '_')`
sanitize_code : String → String
unfolding is_code_unit
sanitize_code String.[] = ""
sanitize_code (String.◌∷◌ c s) =
    if is_code_unit (code c)
    then String.◌∷◌ c (sanitize_code s)
    else if ltb (code c) 0x10000
    then "_" ⧺ sanitize_code s
    else "__" ⧺ sanitize_code s

is_line_break : ℕ → Bool
is_line_break c = eqb c 10 || eqb c 13

-- `replace(/[\r\n]+/g, ' ')`; the flag says that the character before was a line break.
join_lines : Bool → String → String
unfolding is_line_break
join_lines inside String.[] = ""
join_lines inside (String.◌∷◌ c s) =
    let rest = join_lines (is_line_break (code c)) s in
    if is_line_break (code c) then (if inside then rest else " " ⧺ rest) else String.◌∷◌ c rest

-- `kernelFailure`
unfoldable pub kernel_failure : KernelFailure → KernelFailure
unfolding sanitize_code join_lines
kernel_failure input =
    let cut = slice_units 96 (sanitize_code input.code) in
    record input {
      code = if is_empty cut then "unknown" else cut;
      summary = slice_units 320 (join_lines false input.summary);
    }
