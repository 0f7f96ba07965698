-- ===== src/Services/JiraClient/Latest.antt =====
-- Which issue a search settles on.
use postal_dnsbl_monitor.Common.{
  ◌≡◌, refl, true, ◌⊎◌, inl, inr, Option, none, some, List, [], ◌∷◌, Bool-cases,
}
use postal_dnsbl_monitor.Common.Order.{leb_str, leb_str_total, leb_str_trans, leb_str_refl}
use postal_dnsbl_monitor.Services.JiraClient.{
  Issue, FoundIssue, found_issue, chosen, latest_first, insert_latest, head_issue,
}

-- An issue of the list.
abbrev pub In : Issue → List Issue → Type 0
In i [] = ⊥
In i (j ∷ issues) = (i ≡ j) ⊎ In i issues

-- The choice from a search: an issue that it returned, and none of them was created later.
abbrev pub IsLatest : List Issue → Option FoundIssue → Type 0
IsLatest issues none = issues ≡ []
IsLatest issues (some found) =
    (i : Issue) × (found ≡ found_issue i)
    × In i issues
    × ((j : Issue) → In j issues → leb_str j.created i.created ≡ true)

-- The head of a list is an issue of `issues`, and the latest of them.
record Heads (issues : List Issue) (l : List Issue) : Type 0 where
  head : Issue
  rest : List Issue
  shape : l ≡ head ∷ rest
  member : In head issues
  latest : (j : Issue) → In j issues → leb_str j.created head.created ≡ true

insert_latest-Heads :
    (i : Issue) (issues l : List Issue) → Heads issues l → Heads (i ∷ issues) (insert_latest i l)
unfolding insert_latest
insert_latest-Heads i issues l h = elim (Bool-cases (leb_str h.head.created i.created)) [
  | inl later ↦ record {
    head = i;
    rest = h.head ∷ h.rest;
    shape = rw (h.shape, later) refl;
    member = inl refl;
    latest = λ j m. elim m [
      | inl e ↦ rw e (leb_str_refl i.created)
      | inr m ↦ leb_str_trans j.created h.head.created i.created (h.latest j m) later
    ];
  }
  | inr earlier ↦ record {
    head = h.head;
    rest = insert_latest i h.rest;
    shape = rw (h.shape, earlier) refl;
    member = inr h.member;
    latest = λ j m. elim m [
      | inl e ↦ rw e (leb_str_total h.head.created i.created earlier)
      | inr m ↦ h.latest j m
    ];
  }
]

latest_first-Heads :
    (i : Issue) (issues : List Issue) → Heads (i ∷ issues) (latest_first (i ∷ issues))
unfolding latest_first insert_latest
latest_first-Heads i [] = record {
  head = i;
  rest = [];
  shape = refl;
  member = inl refl;
  latest = λ j m. elim m [ inl e ↦ rw e (leb_str_refl i.created) | inr m ↦ absurd m ];
}
latest_first-Heads i (j ∷ issues) =
    insert_latest-Heads i (j ∷ issues) _ (latest_first-Heads j issues)

Heads-IsLatest : (issues l : List Issue) → Heads issues l → IsLatest issues (head_issue l)
Heads-IsLatest issues l h = rw h.shape (h.head, refl, h.member, h.latest)

-- A search that returned issues settles on one of them than which none was created later, and one
-- that returned none on none.
pub chosen-IsLatest : (issues : List Issue) → IsLatest issues (chosen issues)
unfolding chosen latest_first-Heads
chosen-IsLatest [] = refl
chosen-IsLatest (i ∷ []) = (i, refl, inl refl, (latest_first-Heads i []).latest)
chosen-IsLatest (i ∷ j ∷ issues) = Heads-IsLatest _ _ (latest_first-Heads i (j ∷ issues))
