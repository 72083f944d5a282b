-- ===== src/Bundle/Report.antt =====
-- The pass over all sections counts each of them once, and a clean report means what it says.
use sidequests.Common.{ℕ, suc, ◌+◌, ◌≡◌, ◌⊎◌, List, length, true, false}
use sidequests.Error.{Error}
use sidequests.Kinds.{is_external, is_plain, is_known, is_raw}
use sidequests.Section.{SectionRecord}
use sidequests.Crypto.Crates.{Crates}
use sidequests.Bundle.{Bundle}
use sidequests.Bundle.Sections.{VerifyReport}
use sidequests.Bundle.Served.{IsVerified}

-- The sections that a report has counted.
abbrev counted : VerifyReport → ℕ
counted r = r.verified + r.external + r.unverifiable + length r.mismatches

-- What the pass does about one section: nothing to verify, or verified, or a mismatch.
abbrev pub IsFine : Crates → Bundle → SectionRecord → Type 0
IsFine c b r =
    (is_external r.flags ≡ true)
    ⊎ ((is_plain r.enc ≡ false)
        ⊎ (((is_known r.kind ≡ false) × (is_raw r.comp ≡ false))
            ⊎ ((bytes : List ℕ) × IsVerified c b.file r bytes)))

record Counted (c : Crates) (b : Bundle) (r : SectionRecord) (report report' : VerifyReport)
    : Type 0 where
  once : counted report' ≡ suc (counted report)
  fine_or_not :
      (IsFine c b r × (length report'.mismatches ≡ length report.mismatches))
      ⊎ (length report'.mismatches ≡ suc (length report.mismatches))
