-- ===== src/Teams/Membership.antt =====
-- Who is in which team.
use triviabot.Common.{
  ℕ, ◌<◌, ◌≤◌, ◌≡◌, refl, ap, true, false, not, ◌&&◌, ◌⊎◌, List, [], ◌∷◌, ◌++◌, append-nil, keep,
  some, none, ltb, ◌==◌, if◌then◌else◌, inl, inr, Bool-cases, List-cases, length, is_empty, arith,
  Option,
}
use triviabot.Text.{Text}
use triviabot.Teams.{
  Member, Tables, Collation, joined, not_qualified, members_of, leave_team, claim, enter, qualify,
  chart_score, teams_named, join_team,
}

members_of-append :
    (u : ℕ) (xs ys : List Member) → members_of u (xs ++ ys) ≡ members_of u xs ++ members_of u ys
unfolding members_of keep
members_of-append u [] ys = refl
members_of-append u (m ∷ ms) ys = ground (arith, members_of-append u ms ys)

pub members_of-left :
    (u nick : ℕ) (ms : List Member)
    → members_of u (keep (λ (m : Member). not (m.nick == nick)) ms)
      ≡ (if u == nick then [] else members_of u ms)
unfolding members_of keep
members_of-left u nick [] = ground arith
members_of-left u nick (m ∷ ms) = ground (arith, members_of-left u nick ms)

members_of-one : (u : ℕ) (m : Member) → members_of u (m ∷ []) ≡ (if m.nick == u then m ∷ [] else [])
unfolding members_of keep
members_of-one u m = ground arith

entered_only :
    (u nick : ℕ) (row : Member) (before : List Member)
    → row.nick ≡ nick
    → (if u == nick then [] else before) ++ members_of u (row ∷ [])
      ≡ (if u == nick then row ∷ [] else before)
entered_only u nick row before e = elim (Bool-cases (u == nick)) [
  | inl same ↦ rw same (ground (arith, members_of-one u row))
  | inr other ↦
      let absent : members_of u (row ∷ []) ≡ [] = ground (arith, members_of-one u row) in
      rw (other, absent) (append-nil before)
]

-- The members after someone who was in no team has entered one.
pub members_of-entered :
    (db : Collation) (u nick : ℕ) (team : Text) (t : Tables)
    → members_of nick t.members ≡ []
    → members_of u (enter db nick team t).1.members ≡ (
        if u == nick
        then record { nick = nick; team = team; points_contributed = 0 } ∷ []
        else members_of u t.members)
unfolding enter claim leave_team
members_of-entered db u nick team t e =
    let row : Member = record { nick = nick; team = team; points_contributed = 0 } in
    let left = keep (λ (m : Member). not (m.nick == nick)) t.members in
    rw (e, enter, members_of-append u left (row ∷ []), members_of-left u nick t.members)
      (entered_only u nick row (members_of u t.members) refl)

pub enter_member :
    (db : Collation) (nick : ℕ) (team : Text) (t : Tables) (m : Member) (ms : List Member)
    → members_of nick t.members ≡ m ∷ ms
    → enter db nick team t ≡ (joined true, claim db nick team t)
unfolding enter
enter_member db nick team t m ms e = rw (e, enter)

pub qualify_cases :
    (db : Collation) (nick : ℕ) (team : Text) (q : Option ℕ) (t : Tables)
    → (qualify db nick team q t ≡ enter db nick team t)
      ⊎ ((score required : ℕ) × (score < required)
          × (qualify db nick team q t ≡ (not_qualified score required, t)))
unfolding qualify
qualify_cases db nick team none t = inl refl
qualify_cases db nick team (some q) t =
    let score = chart_score db team in
    elim (Bool-cases (ltb 0 q && ltb score q)) [
      | inl refused ↦ inr (score, q, ground arith, ground arith)
      | inr fine ↦ inl (ground arith)
    ]

-- join_team leaves everything as it is, or enters the team.
join_team_cases :
    (db : Collation) (nick : ℕ) (team : Text) (t : Tables)
    → ((join_team db nick team t).1 ≡ t)
      ⊎ (((join_team db nick team t) ≡ enter db nick team t)
          × (is_empty (teams_named db team t.teams) ≡ false))
unfolding join_team
join_team_cases db nick team t = elim (List-cases (teams_named db team t.teams)) [
  | inl e ↦ inl (rw (e, join_team) refl)
  | inr (info, rows, e) ↦ elim (qualify_cases db nick team info.qualifying_score t) [
    | inl entered ↦ inr (rw (e, join_team) entered, rw e refl)
    | inr (score, required, l, refused) ↦ inl (rw (e, join_team) (ap (λ r. r.1) refused))
  ]
]

-- At most one row for a user.
abbrev pub AtMostOne : Tables → Type 0
AtMostOne t = (u : ℕ) → length (members_of u t.members) ≤ 1

enter-AtMostOne :
    (db : Collation) (nick : ℕ) (team : Text) (t : Tables)
    → AtMostOne t
    → AtMostOne (enter db nick team t).1
unfolding claim
enter-AtMostOne db nick team t one u = elim (List-cases (members_of nick t.members)) [
  | inl e ↦ rw (members_of-entered db u nick team t e) (ground (arith, one u))
  | inr (m, ms, e) ↦ rw (enter_member db nick team t m ms e) (one u)
]

pub join_team-AtMostOne :
    (db : Collation) (nick : ℕ) (team : Text) (t : Tables)
    → AtMostOne t
    → AtMostOne (join_team db nick team t).1
join_team-AtMostOne db nick team t one = elim (join_team_cases db nick team t) [
  | inl same ↦ rw same one
  | inr (entered, named) ↦ rw entered (enter-AtMostOne db nick team t one)
]
