-- ===== src/Scheduler/Reorder/Jobs.antt =====
-- services/rl_scheduler/reorder_daemon.py: the dictionary of the jobs that remain to be ranked.
use kelpflux.Base.{
  suc, ◌≡◌, refl, sym, ap, ◌∙◌, inl, inr, true, false, none, some, List, [], ◌∷◌, Perm, Text,
  text_eq, text_eq_iff, length, All, All-map_impl, Bool-cases, Dict, lookup, insert, erase,
  lookup-insert, lookup-erase, arith,
}
use mathlib.Core.List.Perm
use kelpflux.Scheduler.Placement.{SlurmJob}
use kelpflux.Scheduler.Reorder.Ranking.{values, jobs_by_id}

-- Every job stands under its own id, and no id stands there twice.
abbrev pub IsKeyed : Dict SlurmJob → Type 0
IsKeyed [] = Unit
IsKeyed ((jid, job) ∷ d) = (jid ≡ job.job_id) × (lookup jid d ≡ none) × IsKeyed d

-- A lookup of another key passes the entry by.
passes :
    (k jid : Text) (job : SlurmJob) (d : Dict SlurmJob)
    → text_eq jid k ≡ false
    → lookup k ((jid, job) ∷ d) ≡ lookup k d
unfolding lookup
passes k jid job d e = rw e refl

finds :
    (k jid : Text) (job : SlurmJob) (d : Dict SlurmJob)
    → text_eq jid k ≡ true
    → lookup k ((jid, job) ∷ d) ≡ some job
unfolding lookup
finds k jid job d e = rw e refl

not_found : (k : Text) (job : SlurmJob) → lookup k [] ≡ some job → ⊥
unfolding lookup
not_found k job e = absurd (cc)

text_ne_sym : (s t : Text) → text_eq s t ≡ false → text_eq t s ≡ false
text_ne_sym s t h = ground (arith, h, text_eq_iff s t, text_eq_iff t s)

pub insert-IsKeyed :
    (job : SlurmJob) (d : Dict SlurmJob) → IsKeyed d → IsKeyed (insert job.job_id job d)
unfolding insert
insert-IsKeyed job [] h = (refl, (unfold lookup in refl), tt)
insert-IsKeyed job ((jid, other) ∷ d) h = elim (Bool-cases (text_eq jid job.job_id)) [
  | inl e ↦ rw e (refl, rw (← (text_eq_iff _ _).0 e) h.1, h.2)
  | inr e ↦
      rw e (h.0, rw (lookup-insert, text_ne_sym jid job.job_id e) h.1, insert-IsKeyed job d h.2)
]

pub jobs_by_id-IsKeyed :
    (jobs : List SlurmJob) (d : Dict SlurmJob) → IsKeyed d → IsKeyed (jobs_by_id jobs d)
unfolding jobs_by_id
jobs_by_id-IsKeyed [] d h = h
jobs_by_id-IsKeyed (job ∷ jobs) d h = jobs_by_id-IsKeyed jobs _ (insert-IsKeyed job d h)

pub erase-IsKeyed : (k : Text) (d : Dict SlurmJob) → IsKeyed d → IsKeyed (erase k d)
unfolding erase
erase-IsKeyed k [] h = tt
erase-IsKeyed k ((jid, job) ∷ d) h = elim (Bool-cases (text_eq jid k)) [
  | inl e ↦ rw e (erase-IsKeyed k d h.2)
  | inr e ↦ rw e (h.0, rw (lookup-erase k jid d, text_ne_sym jid k e) h.1, erase-IsKeyed k d h.2)
]

erase_absent : (k : Text) (d : Dict SlurmJob) → lookup k d ≡ none → erase k d ≡ d
unfolding erase lookup
erase_absent k [] h = refl
erase_absent k ((jid, job) ∷ d) h = elim (Bool-cases (text_eq jid k)) [
  | inl e ↦ absurd (cc (rw e at h))
  | inr e ↦ rw e (ap (λ r. (jid, job) ∷ r) (erase_absent k d (rw e at h)))
]

-- The job under a key is one of the values, and the key is its id.
pub lookup-job_id :
    (k : Text) (job : SlurmJob) (d : Dict SlurmJob)
    → IsKeyed d
    → lookup k d ≡ some job
    → job.job_id ≡ k
unfolding lookup
lookup-job_id k job [] h e = absurd (cc)
lookup-job_id k job ((jid, other) ∷ d) h e = elim (Bool-cases (text_eq jid k)) [
  | inl same ↦
      let here : other ≡ job = cc (rw same at e) in
      ap (λ (j : SlurmJob). j.job_id) (sym here) ∙ sym h.0 ∙ (text_eq_iff jid k).0 same
  | inr differs ↦ lookup-job_id k job d h.2 (rw differs at e)
]

pub values-perm :
    (k : Text) (job : SlurmJob) (d : Dict SlurmJob)
    → IsKeyed d
    → lookup k d ≡ some job
    → Perm (values d) (job ∷ values (erase k d))
unfolding erase
values-perm k job [] h e = absurd (not_found k job e)
values-perm k job ((jid, other) ∷ d) h e = elim (Bool-cases (text_eq jid k)) [
  | inl same ↦
      let here : other ≡ job = cc (sym (finds k jid other d same) ∙ e) in
      let gone : erase k d ≡ d =
        erase_absent k d (ap (λ t. lookup t d) (sym ((text_eq_iff jid k).0 same)) ∙ h.1) in
      rw (same, gone, here) (Perm.refl (job ∷ values d))
  | inr differs ↦ rw differs (
      Perm.trans
        (Perm.cons other (values-perm k job d h.2 (sym (passes k jid other d differs) ∙ e)))
        (Perm.swap job other (values (erase k d))))
]

pub length-erase :
    (k : Text) (job : SlurmJob) (d : Dict SlurmJob)
    → IsKeyed d
    → lookup k d ≡ some job
    → length d ≡ suc (length (erase k d))
unfolding erase
length-erase k job [] h e = absurd (not_found k job e)
length-erase k job ((jid, other) ∷ d) h e = elim (Bool-cases (text_eq jid k)) [
  | inl same ↦
      let gone : erase k d ≡ d =
        erase_absent k d (ap (λ t. lookup t d) (sym ((text_eq_iff jid k).0 same)) ∙ h.1) in
      rw (same, gone) refl
  | inr differs ↦
      rw differs (ap suc (length-erase k job d h.2 (sym (passes k jid other d differs) ∙ e)))
]

-- Every value stands under its id.
pub values-lookup :
    (d : Dict SlurmJob) → IsKeyed d → All (λ job. lookup job.job_id d ≡ some job) (values d)
values-lookup [] h = tt
values-lookup ((jid, job) ∷ d) h = (
  finds job.job_id jid job d ((text_eq_iff _ _).1 h.0),
  All-map_impl _ (λ j. lookup j.job_id ((jid, job) ∷ d) ≡ some j) (values d)
      (λ j at. elim (Bool-cases (text_eq jid j.job_id)) [
        | inl e ↦ absurd (cc (h.1, at, (text_eq_iff _ _).0 e))
        | inr e ↦ passes j.job_id jid job d e ∙ at
      ])
      (values-lookup d h.2),
)
