-- ===== src/Scanner/Atomic.antt =====
-- The file that the scanner writes: the old one or the whole new one, whatever call fails.
use k3df.Base.{
  ◌≡◌, ◌≢◌, refl, ◌⊎◌, inl, inr, Bool, true, false, String, ◌==◌, Option, none, some, [], ◌∷◌,
}
use k3df.Json.{Value}
use k3df.Scanner.{Response}
use k3df.Scanner.Report.{
  Content, whole, Disk, System, Ending, returned, stopped, write_report, scan_value, trim_slashes,
  main,
}

-- Before the run there is no temporary file.
abbrev pub fresh : Option Content → Disk
fresh before = record { output = before; temporary = none }

-- The run returned and the output is the value, or it did not and the output is as before; the
-- temporary file is gone unless it could not be removed.
abbrev pub IsAtomic : System → Value → Option Content → Disk × Ending → Type 0
IsAtomic o v before (d, e) =
    (((e ≡ returned) × (d.output ≡ some (whole v))) ⊎ ((e ≢ returned) × (d.output ≡ before)))
    × ((d.temporary ≡ none) ⊎ (o.unlinks ≡ false))

abbrev system : Bool → Bool → Bool → Bool → Bool → Bool → System
system p m c d r u = record {
  prints = p;
  makes_directory = m;
  makes_file = c;
  dumps = d;
  replaces = r;
  unlinks = u;
}

stopped-returned : stopped ≢ returned
stopped-returned h = cc

-- By what the calls of the run do.
IsAtomic-write_report :
    (p m c d r u : Bool) (v : Value) (before : Option Content)
    → IsAtomic (system p m c d r u) v before (write_report (system p m c d r u) v (fresh before))
IsAtomic-write_report p false c d r u v before = (inr (stopped-returned, refl), inl refl)
IsAtomic-write_report p true false d r u v before = (inr (stopped-returned, refl), inl refl)
IsAtomic-write_report p true true true true u v before = (inl (refl, refl), inl refl)
IsAtomic-write_report p true true true false true v before =
    (inr (stopped-returned, refl), inl refl)
IsAtomic-write_report p true true true false false v before =
    (inr (stopped-returned, refl), inr refl)
IsAtomic-write_report p true true false r true v before = (inr (stopped-returned, refl), inl refl)
IsAtomic-write_report p true true false r false v before = (inr (stopped-returned, refl), inr refl)

module _ (request : String → Response) (clock base_url path : String) (before : Option Content)
    (named : (path == "") ≡ false) where
  IsAtomic-main_by :
      (p m c d r u : Bool)
      → IsAtomic
          (system p m c d r u)
          (scan_value request clock (trim_slashes base_url))
          before
          (main request clock (system p m c d r u) (some path) (base_url ∷ []) (fresh before))
  unfolding main
  IsAtomic-main_by false m c d r u = (inr (stopped-returned, refl), inl refl)
  IsAtomic-main_by true m c d r u = rw named (IsAtomic-write_report true m c d r u _ before)

  -- For one address and a named output, whatever calls of the operating system fail: either the
  -- scanner returns and the output is the whole document, or it does not return and the output
  -- is what it was; and the temporary file is gone unless removing it fails.
  pub main-IsAtomic :
      (o : System)
      → IsAtomic o
          (scan_value request clock (trim_slashes base_url))
          before
          (main request clock o (some path) (base_url ∷ []) (fresh before))
  main-IsAtomic o =
      IsAtomic-main_by o.prints o.makes_directory o.makes_file o.dumps o.replaces o.unlinks
