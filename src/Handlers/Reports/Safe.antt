-- ===== src/Handlers/Reports/Safe.antt =====
-- internal/handlers/reports.go: which files a request can get.
use data_flow_agent_hub.Base.{
  ℕ, Text, codes, same, same→eq, lookup, All, List, [], ◌∷◌, ◌++◌, Bool, true, not, &&-true, Option,
  none, some, ◌≡◌, ◌≢◌, ◌⊎◌, inl, inr, refl, arith, if_cases,
}
use data_flow_agent_hub.Async.{Run}
use data_flow_agent_hub.Handlers.Reports.{
  is_hex, is_dash, is_version, is_variant, times, uuid_re, matches, report_formats, Download,
  refused, served, serve, with_format, format_of, download_report,
}

-- a byte that neither ends a folder nor stands for one
abbrev pub IsPlain : ℕ → Type 0
IsPlain c = (c ≢ b'/') × (c ≢ b'.') × (c ≢ 0)

abbrev Plain : (ℕ → Bool) → Type 0
Plain p = (c : ℕ) → p c ≡ true → IsPlain c

hex-Plain : Plain is_hex
unfolding is_hex
hex-Plain c h = ((λ e. ground arith), (λ e. ground arith), (λ e. ground arith))

dash-Plain : Plain is_dash
dash-Plain c h = ((λ e. ground arith), (λ e. ground arith), (λ e. ground arith))

version-Plain : Plain is_version
version-Plain c h = ((λ e. ground arith), (λ e. ground arith), (λ e. ground arith))

variant-Plain : Plain is_variant
variant-Plain c h = ((λ e. ground arith), (λ e. ground arith), (λ e. ground arith))

uuid_re-Plain : All Plain uuid_re
unfolding uuid_re times
uuid_re-Plain = search (hex-Plain, dash-Plain, version-Plain, variant-Plain)

matches-Plain :
    (ps : List (ℕ → Bool)) (s : Text) → All Plain ps → matches ps s ≡ true → All IsPlain s
unfolding matches
matches-Plain [] [] h m = tt
matches-Plain [] (c ∷ s) h m = cc
matches-Plain (p ∷ ps) [] h m = cc
matches-Plain (p ∷ ps) (c ∷ s) h m =
    let (here, rest) = &&-true (p c) (matches ps s) m in (h.0 c here, matches-Plain ps s h.1 rest)

abbrev pub IsExtension : Text → Type 0
IsExtension ext = (ext ≡ codes ".pdf") ⊎ ((ext ≡ codes ".md") ⊎ (ext ≡ codes ".docx"))

-- what a served file is
abbrev pub IsReport : Text → List (Text × Run) → Download → Type 0
IsReport id runs (refused status e) = Unit
IsReport id runs (served name content_type) =
    All IsPlain id
    × ((ext : Text) × IsExtension ext × (name ≡ id ++ ext))
    × ((r : Run) × (lookup id runs ≡ some r) × (r.status ≡ codes "completed"))

serve-IsReport :
    (exists : Text → Bool) (id ext content_type : Text) (found : Option Run)
    (runs : List (Text × Run))
    → All IsPlain id
    → IsExtension ext
    → lookup id runs ≡ found
    → IsReport id runs (serve exists id (ext, content_type) found)
unfolding serve
serve-IsReport exists id ext content_type none runs p e h = tt
serve-IsReport exists id ext content_type (some r) runs p e h =
    if_cases (IsReport id runs) (not (same r.status (codes "completed"))) _ _ (λ _. tt)
      (λ done.
        if_cases (IsReport id runs) (not (exists (id ++ ext))) _ _ (λ _. tt)
          (λ _. (p, (ext, e, refl), (r, h, same→eq r.status (codes "completed") (ground arith)))))

abbrev Formatted : Option (Text × Text) → Type 0
Formatted none = Unit
Formatted (some (ext, content_type)) = IsExtension ext

lookup-Formatted : (format : Text) → Formatted (lookup format report_formats)
unfolding lookup
lookup-Formatted format =
    if_cases Formatted (same (codes "pdf") format) _ _ (λ _. inl refl)
      (λ _.
        if_cases Formatted (same (codes "md") format) _ _ (λ _. inr (inl refl))
          (λ _.
            if_cases Formatted (same (codes "docx") format) _ _ (λ _. inr (inr refl)) (λ _. tt)))

with_format-IsReport :
    (fails : Bool) (exists : Text → Bool) (id : Text) (format : Option (Text × Text))
    (runs : List (Text × Run))
    → All IsPlain id
    → Formatted format
    → IsReport id runs (with_format fails exists id format runs)
unfolding with_format
with_format-IsReport fails exists id none runs p f = tt
with_format-IsReport fails exists id (some (ext, content_type)) runs p f =
    if_cases (IsReport id runs) fails _ _ (λ _. tt)
      (λ _. serve-IsReport exists id ext content_type (lookup id runs) runs p f refl)

-- Whatever identifier and format a request holds, a file that DownloadReport serves lies in the folder of the
-- reports itself: its name is the identifier, which has no slash, no dot and no zero byte, with one of
-- the extensions .pdf, .md and .docx; and the identifier is that of a run that is completed.
pub download_report-IsReport :
    (fails : Bool) (exists : Text → Bool) (id query : Text) (runs : List (Text × Run))
    → IsReport id runs (download_report fails exists id query runs)
unfolding download_report
download_report-IsReport fails exists id query runs =
    if_cases (IsReport id runs) (not (matches uuid_re id)) _ _ (λ _. tt)
      (λ m.
        with_format-IsReport fails exists id _ runs
          (matches-Plain uuid_re id uuid_re-Plain (ground arith))
          (lookup-Formatted (format_of query)))
