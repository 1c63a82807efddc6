-- ===== src/Analysis/Warnings.antt =====
-- The warning texts of option-b/internal/analysis/pipeline.go.
use Prim.Native.String.{String, ◌++◌}

abbrev pub blocked_warning : String → String
blocked_warning name = name ++ " has blocked paths"
