-- ===== src/Handlers/Reports.antt =====
-- internal/handlers/reports.go: the download of the report of a run. Which files there are is a parameter.
pub mod Safe
pub mod Examples
use data_flow_agent_hub.Base.{
  ℕ, zero, suc, Text, codes, same, to_lower, lookup, leb, ◌==◌, List, [], ◌∷◌, ◌++◌, Bool, true,
  false, not, ◌&&◌, ◌||◌, Option, none, some, if◌then◌else◌,
}
use data_flow_agent_hub.Async.{Run}

-- the classes of `uuidRE`
unfoldable pub is_hex : ℕ → Bool
is_hex c = (leb b'0' c && leb c b'9') || (leb b'a' c && leb c b'f')

abbrev pub is_dash : ℕ → Bool
is_dash c = c == b'-'

abbrev pub is_version : ℕ → Bool
is_version c = c == b'4'

abbrev pub is_variant : ℕ → Bool
is_variant c = c == b'8' || c == b'9' || c == b'a' || c == b'b'

unfoldable pub times : ℕ → (ℕ → Bool) → List (ℕ → Bool) → List (ℕ → Bool)
times zero p rest = rest
times (suc n) p rest = p ∷ times n p rest

-- `uuidRE`
unfoldable pub uuid_re : List (ℕ → Bool)
unfolding times
uuid_re = times 8 is_hex (
    is_dash
    ∷ times 4 is_hex (
        is_dash
        ∷ is_version
        ∷ times 3 is_hex (is_dash ∷ is_variant ∷ times 3 is_hex (is_dash ∷ times 12 is_hex []))))

-- `MatchString`, for an expression from the first to the last byte
unfoldable pub matches : List (ℕ → Bool) → Text → Bool
matches [] [] = true
matches [] (c ∷ s) = false
matches (p ∷ ps) [] = false
matches (p ∷ ps) (c ∷ s) = p c && matches ps s

-- `reportFormats`: the extension and the type of the content
abbrev pub report_formats : List (Text × (Text × Text))
report_formats =
    (codes "pdf", (codes ".pdf", codes "application/pdf"))
    ∷ (codes "md", (codes ".md", codes "text/markdown"))
    ∷ (
      codes "docx",
      (
        codes ".docx",
        codes "application/vnd.openxmlformats-officedocument.wordprocessingml.document",
      ),
    )
    ∷ []

unfoldable pub format_of : Text → Text
format_of query = let f = to_lower query in if same f [] then codes "pdf" else f

-- a refusal, or a file of the folder of reports with the type of its content
pub data Download : Type 0 where
  refused : ℕ → Text → Download
  served : Text → Text → Download

unfoldable pub serve : (Text → Bool) → Text → Text × Text → Option Run → Download
serve exists id format none = refused 404 (codes "run not found")
serve exists id (ext, content_type) (some r) =
    if not (same r.status (codes "completed"))
    then refused 404 (codes "report not ready")
    else if not (exists (id ++ ext))
    then refused 404 (codes "report file not found")
    else served (id ++ ext) content_type

unfoldable pub with_format :
    Bool → (Text → Bool) → Text → Option (Text × Text) → List (Text × Run) → Download
with_format fails exists id none runs = refused 400 (codes "unsupported format, use: pdf, md, docx")
with_format fails exists id (some format) runs =
    if fails then refused 404 (codes "run not found") else serve exists id format (lookup id runs)

-- `DownloadReport`
unfoldable pub download_report : Bool → (Text → Bool) → Text → Text → List (Text × Run) → Download
download_report fails exists id query runs =
    if not (matches uuid_re id)
    then refused 400 (codes "invalid run id format")
    else with_format fails exists id (lookup (format_of query) report_formats) runs
