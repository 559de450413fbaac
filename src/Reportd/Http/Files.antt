-- ===== src/Reportd/Http/Files.antt =====
-- The file names of src/internal/reportd/handlers.go.
use timesync_analyzer.Common.{ℕ, ◌++◌, map, ◌||◌, if◌then◌else◌, ◌==◌, nat_beq}
use timesync_analyzer.Common.Text.{Text, text, text_eq, is_empty}
use timesync_analyzer.Reportd.Types.{ReportJob}

-- What the replacer writes for a character.
unfoldable pub sanitize_char : ℕ → ℕ
sanitize_char c =
    if nat_beq c b'"' || nat_beq c 92 || nat_beq c b'/' || nat_beq c 13 || nat_beq c 10
    then b'_'
    else c

unfoldable pub sanitize_filename : Text → Text
sanitize_filename name = map sanitize_char name

-- `filepath.Base` and `filepath.Dir`
pub record PathLib : Type 0 where
  pub base : Text → Text
  pub dir : Text → Text

unfoldable pub download_filename : PathLib → ReportJob → Text → Text
unfolding sanitize_filename
download_filename lib job path =
    let prefix = lib.base (lib.dir path) in
    let name =
      if is_empty prefix || prefix == text "." || prefix == text "/" then job.id else prefix in
    sanitize_filename (name ++ text "-" ++ lib.base path)
