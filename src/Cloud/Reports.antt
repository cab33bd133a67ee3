-- ===== src/Cloud/Reports.antt =====
-- The report of a cloud scan, whatever the checks are.
use kvisor.Base.{
  String, List, [], ◌∷◌, map, Option, none, some, some_inj, Bool, true, ◌⊎◌, inl, inr, All, subst,
  ◌≡◌, ◌↔◌, refl, ap, sym, ◌∙◌, arith,
}
use kvisor.Cloud.{
  CheckContext, Check, CloudScanCheck, Rule, Made, made, refused, panicked, report_of, run_check,
  context_bytes, with_entry, entry_of,
}

-- The check comes to its end.
abbrev pub Runs : Rule → Type 0
Runs r = (c : Check) × (run_check r ≡ some c)

-- What is said of the check after it ran, if it did.
abbrev pub Judged : (Check → Type 0) → Rule → Type 0
Judged P r = (c : Check) → run_check r ≡ some c → P c

-- A check keeps its ID, and has a context only if it does not pass.
abbrev pub Keeps : Rule → Type 0
Keeps r = Judged (λ c. (c.id ≡ r.check.id) × (c.passed ≡ true → c.context ≡ none)) r

abbrev pub id_of : CloudScanCheck → String
id_of e = e.id

abbrev pub listed_id : Rule → String
listed_id r = r.check.id

made_inj : {xs ys : List CloudScanCheck} → made xs ≡ made ys → xs ≡ ys
made_inj e = cc

module _ (marshal : CheckContext → String ⊎ String) where
  -- A report that was made begins with the entry of the first check.
  abbrev MadeCons : Rule → List Rule → List CloudScanCheck → Type 0
  MadeCons r rs entries =
      (c : Check) × (bytes : Option String) × (rest : List CloudScanCheck) × (run_check r ≡ some c)
      × (context_bytes marshal c.context ≡ inr bytes)
      × (report_of marshal rs ≡ made rest)
      × (entries ≡ entry_of c bytes ∷ rest)

  report_of-MadeCons :
      (r : Rule) (rs : List Rule) (entries : List CloudScanCheck)
      → report_of marshal (r ∷ rs) ≡ made entries
      → MadeCons r rs entries
  unfolding report_of
  report_of-MadeCons r rs entries e = by_run (run_check r) refl e
    where
      by_rest :
          (c : Check) (bytes : Option String) (m : Made)
          → run_check r ≡ some c
          → context_bytes marshal c.context ≡ inr bytes
          → report_of marshal rs ≡ m
          → with_entry (entry_of c bytes) m ≡ made entries
          → MadeCons r rs entries
      by_rest c bytes panicked hr hb h e = let clash : panicked ≡ made entries = e in cc
      by_rest c bytes (refused err) hr hb h e = let clash : refused err ≡ made entries = e in cc
      by_rest c bytes (made rest) hr hb h e = (c, bytes, rest, hr, hb, h, sym (made_inj e))

      by_bytes :
          (c : Check) (b : String ⊎ Option String)
          → run_check r ≡ some c
          → context_bytes marshal c.context ≡ b
          → elim b as (λ _. Made) [
            | inl err ↦ refused err
            | inr bytes ↦ with_entry (entry_of c bytes) (report_of marshal rs)
          ]
            ≡ made entries
          → MadeCons r rs entries
      by_bytes c (inl err) hr hb e = let clash : refused err ≡ made entries = e in cc
      by_bytes c (inr bytes) hr hb e = by_rest c bytes (report_of marshal rs) hr hb refl e

      by_run :
          (o : Option Check)
          → run_check r ≡ o
          → elim o as (λ _. Made) [
            | none ↦ panicked
            | some c ↦ elim (context_bytes marshal c.context) [
              | inl err ↦ refused err
              | inr bytes ↦ with_entry (entry_of c bytes) (report_of marshal rs)
            ]
          ]
            ≡ made entries
          → MadeCons r rs entries
      by_run none hr e = let clash : panicked ≡ made entries = e in cc
      by_run (some c) hr e = by_bytes c (context_bytes marshal c.context) hr refl e

  -- The entries have the IDs of the checks, in their order.
  pub report_of-ids :
      (rs : List Rule) (entries : List CloudScanCheck)
      → report_of marshal rs ≡ made entries
      → All Keeps rs
      → map id_of entries ≡ map listed_id rs
  unfolding report_of
  report_of-ids [] entries e k = ap (map id_of) (sym (made_inj e))
  report_of-ids (r ∷ rs) entries e k =
      let (c, bytes, rest, hr, hb, h, he) = report_of-MadeCons r rs entries e in
      let ih = report_of-ids rs rest h k.1 in let same = (k.0 c hr).0 in rw he (λ i. same i ∷ ih i)

  quiet :
      (c : Check) (bytes : Option String)
      → (c.passed ≡ true → c.context ≡ none)
      → context_bytes marshal c.context ≡ inr bytes
      → c.passed ≡ true
      → bytes ≡ none
  unfolding context_bytes
  quiet c bytes k hb p =
      let same : inr none ≡ inr bytes = sym (ap (context_bytes marshal) (k p)) ∙ hb in cc

  -- An entry that passed has no context.
  pub report_of-quiet :
      (rs : List Rule) (entries : List CloudScanCheck)
      → report_of marshal rs ≡ made entries
      → All Keeps rs
      → All (λ (e : CloudScanCheck). e.passed ≡ true → e.context ≡ none) entries
  unfolding report_of context_bytes
  report_of-quiet [] entries e k = subst (All _) (made_inj e) tt
  report_of-quiet (r ∷ rs) entries e k =
      let (c, bytes, rest, hr, hb, h, he) = report_of-MadeCons r rs entries e in
      let ih = report_of-quiet rs rest h k.1 in rw he (quiet c bytes (k.0 c hr).1 hb, ih)

  -- What is said of the entries by their IDs and verdicts is what is said of the checks.
  pub report_of-Judged :
      (P : String → Bool → Type 0) (rs : List Rule) (entries : List CloudScanCheck)
      → report_of marshal rs ≡ made entries
      → All (λ (e : CloudScanCheck). P e.id e.passed) entries
        ↔ All (Judged (λ c. P c.id c.passed)) rs
  unfolding report_of
  report_of-Judged P [] entries e =
      subst (λ x. All (λ (e : CloudScanCheck). P e.id e.passed) x ↔ Unit {0}) (made_inj e)
        (λ h. tt, λ h. tt)
  report_of-Judged P (r ∷ rs) entries e =
      let (c, bytes, rest, hr, hb, h, he) = report_of-MadeCons r rs entries e in
      let ih = report_of-Judged P rs rest h in
      rw he (
        (λ a. ((λ d hd. subst (λ x. P x.id x.passed) (some_inj (sym hr ∙ hd)) a.0), ih.0 a.1)),
        λ a. (a.0 c hr, ih.1 a.1),
      )

  bytes_made :
      (o : Option CheckContext)
      → ((context : CheckContext) → (bytes : String) × (marshal context ≡ inr bytes))
      → (bytes : Option String) × (context_bytes marshal o ≡ inr bytes)
  unfolding context_bytes
  bytes_made none hm = (none, refl)
  bytes_made (some context) hm = (some (hm context).0, ground (arith, (hm context).1))

  -- If all checks come to their end and every context can be marshalled, a report is made.
  pub report_of-made :
      (rs : List Rule)
      → ((context : CheckContext) → (bytes : String) × (marshal context ≡ inr bytes))
      → All Runs rs
      → (entries : List CloudScanCheck) × (report_of marshal rs ≡ made entries)
  unfolding report_of run_check
  report_of-made [] hm h = ([], refl)
  report_of-made (r ∷ rs) hm h =
      let (entries, he) = report_of-made rs hm h.1 in
      let (c, hr) = h.0 in
      let (bytes, hb) = bytes_made c.context hm in
      (entry_of c bytes ∷ entries, ground (arith, hr, hb, he))

  pub report_of-never_panics : (rs : List Rule) → All Runs rs → ¬ (report_of marshal rs ≡ panicked)
  unfolding report_of run_check
  report_of-never_panics [] h e = let clash : made [] ≡ panicked = e in cc
  report_of-never_panics (r ∷ rs) h e =
      let (c, hr) = h.0 in let rest = report_of-never_panics rs h.1 in ground (arith, e, hr, rest)

  -- A check that has no context is passed over on the way to a panic.
  pub report_of-skip :
      (r : Rule) (rs : List Rule) (c : Check)
      → run_check r ≡ some c
      → c.context ≡ none
      → report_of marshal rs ≡ panicked
      → report_of marshal (r ∷ rs) ≡ panicked
  unfolding report_of run_check context_bytes
  report_of-skip r rs c hr hc h = ground (arith, hr, hc, h)

  pub report_of-stops :
      (r : Rule) (rs : List Rule) → run_check r ≡ none → report_of marshal (r ∷ rs) ≡ panicked
  unfolding report_of run_check
  report_of-stops r rs hr = ground (arith, hr)
