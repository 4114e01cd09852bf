-- ===== src/Teams/Creating.antt =====
-- Who makes a team, and what they are told.
use triviabot.Common.{
  ℕ, ◌≡◌, refl, ap, ◌∙◌, true, List, [], ◌∷◌, ◌++◌, map, keep, some, none, ◌==◌, if◌then◌else◌, inl,
  inr, Bool-cases, length, ==_refl, arith,
}
use triviabot.Text.{Text, getline, trim, replaced}
use triviabot.Teams.{
  Team, Member, Tables, Collation, members_of, get_current_team, first_team, leave_team, take_over,
  claim, enter, teams_named, join_team, leave_call, create_team, create_each, create_call,
  create_reply,
}
use triviabot.Teams.Censor.{
  SwearFilter, unmarked, Answer, malformed, contains_bad_word, after_parse,
}
use triviabot.Teams.Joining.{join_open, entered_true}
use triviabot.Teams.Membership.{members_of-entered}

abbrev fresh_team : Text → Team
fresh_team name = record { name = name; score = 0; owner_id = none; qualifying_score = none }

take_over_none :
    (db : Collation) (nick : ℕ) (team : Text) (rows : List Team)
    → teams_named db team rows ≡ []
    → map (take_over db nick team) rows ≡ rows
unfolding teams_named keep take_over
take_over_none db nick team [] e = refl
take_over_none db nick team (row ∷ rows) e = elim (Bool-cases (db.same row.name team)) [
  | inl same ↦ absurd (ground arith)
  | inr other ↦ ground (arith, take_over_none db nick team rows (ground arith))
]

teams_named_fresh :
    (db : Collation) (team : Text) (rows : List Team) (fresh : Team)
    → teams_named db team rows ≡ []
    → db.same fresh.name team ≡ true
    → teams_named db team (rows ++ fresh ∷ []) ≡ fresh ∷ []
unfolding teams_named keep
teams_named_fresh db team [] fresh e own = rw own refl
teams_named_fresh db team (row ∷ rows) fresh e own = elim (Bool-cases (db.same row.name team)) [
  | inl same ↦ absurd (ground arith)
  | inr other ↦ ground (arith, teams_named_fresh db team rows fresh (ground arith) own)
]

map-snoc :
    {A B : Type 0} (f : A → B) (xs : List A) (x : A) → map f (xs ++ x ∷ []) ≡ map f xs ++ f x ∷ []
map-snoc f [] x = refl
map-snoc f (y ∷ ys) x = ap (λ r. f y ∷ r) (map-snoc f ys x)

create_team_new :
    (db : Collation) (author : ℕ) (name : Text) (t : Tables)
    → teams_named db name t.teams ≡ []
    → create_team db author name t ≡ (
      create_reply
          (join_team db author name (record t { teams = t.teams ++ fresh_team name ∷ [] })).0,
      (join_team db author name (record t { teams = t.teams ++ fresh_team name ∷ [] })).1,
    )
unfolding create_team
create_team_new db author name t e = rw (e, create_team)

enter_teams :
    (db : Collation) (author : ℕ) (name : Text) (t : Tables)
    → members_of author t.members ≡ []
    → teams_named db name t.teams ≡ []
    → db.same name name ≡ true
    → (enter db author name (record t { teams = t.teams ++ fresh_team name ∷ [] })).1.teams
      ≡ t.teams ++ record (fresh_team name) { owner_id = some author } ∷ []
unfolding enter claim take_over leave_team
enter_teams db author name t free unnamed own = rw (
  free,
  enter,
  map-snoc (take_over db author name) t.teams (fresh_team name),
  take_over_none db author name t.teams unnamed,
  own,
)

-- The team that a player with no team makes, of a name that no team has: all other teams stay, the
-- new one has no points, and its maker is its owner and its only new member.
pub create_team_fresh :
    (db : Collation) (author : ℕ) (name : Text) (t : Tables)
    → members_of author t.members ≡ []
    → teams_named db name t.teams ≡ []
    → db.same name name ≡ true
    → ((create_team db author name t).0 ≡ "CREATED" ∷ "ZELDAREFERENCE" ∷ [])
      × ((create_team db author name t).1.teams
          ≡ t.teams
            ++ record { name = name; score = 0; owner_id = some author; qualifying_score = none }
              ∷ [])
      × ((u : ℕ)
          → members_of u (create_team db author name t).1.members ≡ (
              if u == author
              then record { nick = author; team = name; points_contributed = 0 } ∷ []
              else members_of u t.members))
unfolding create_reply
create_team_fresh db author name t free unnamed own =
    let fresh = fresh_team name in
    let added = record t { teams = t.teams ++ fresh ∷ [] } in
    let named = teams_named_fresh db name t.teams fresh unnamed own in
    let entered = join_open db author name added fresh [] named refl in
    let made = create_team_new db author name t unnamed in
    (
      rw (made, entered, entered_true db author name added) refl,
      rw (made, entered) (enter_teams db author name t free unnamed own),
      λ u. rw (made, entered) (members_of-entered db u author name added free),
    )

-- Whoever has a row of membership in a team with an empty name cannot leave it.
nameless_stays :
    (u : ℕ) (t : Tables) (m : Member) (ms : List Member)
    → members_of u t.members ≡ m ∷ ms
    → m.team ≡ []
    → leave_call u t ≡ ("YOULONER" ∷ [], t)
unfolding leave_call get_current_team first_team
nameless_stays u t m ms e nameless = rw (e, leave_call, nameless) refl

create_call_clean :
    (db : Collation) (censor : Text → List SwearFilter) (author : ℕ) (tokens : Text) (t : Tables)
    → members_of author t.members ≡ []
    → create_call db censor author tokens t
      ≡ create_each db author
          (trim (replaced (trim (getline tokens)) (64 ∷ []) []))
          (censor (trim (replaced (trim (getline tokens)) (64 ∷ []) [])))
          t
unfolding create_call get_current_team
create_call_clean db censor author tokens t free = rw (free, create_call) refl

create_nameless :
    (db : Collation) (author : ℕ) (name : Text) (censor : Text → List SwearFilter) (t : Tables)
    → name ≡ []
    → censor [] ≡ unmarked ∷ []
    → create_each db author name (censor name) t
      ≡ ((create_team db author [] t).0 ∷ [], (create_team db author [] t).1)
unfolding create_each
create_nameless db author name censor t blank clean = rw (blank, clean) refl

-- A player with no team who makes a team with an empty name, where there is none yet, is told
-- CREATED; and when they then ask to leave, they are told that they are in no team, and stay in it.
create_call_nameless :
    (db : Collation) (censor : Text → List SwearFilter) (author : ℕ) (tokens : Text) (t : Tables)
    → trim (replaced (trim (getline tokens)) (64 ∷ []) []) ≡ []
    → censor [] ≡ unmarked ∷ []
    → members_of author t.members ≡ []
    → teams_named db [] t.teams ≡ []
    → db.same [] [] ≡ true
    → ((create_call db censor author tokens t).0 ≡ ("CREATED" ∷ "ZELDAREFERENCE" ∷ []) ∷ [])
      × (leave_call author (create_call db censor author tokens t).1
          ≡ ("YOULONER" ∷ [], (create_call db censor author tokens t).1))
      × (length (members_of author (create_call db censor author tokens t).1.members) ≡ 1)
create_call_nameless db censor author tokens t blank clean free unnamed own =
    let made = create_team_fresh db author [] t free unnamed own in
    let name = trim (replaced (trim (getline tokens)) (64 ∷ []) []) in
    let same =
      create_call_clean db censor author tokens t free
      ∙ create_nameless db author name censor t blank clean in
    let stuck : Member = record { nick = author; team = []; points_contributed = 0 } in
    let is_member : members_of author (create_team db author [] t).1.members ≡ stuck ∷ [] =
      rw (made.2 author, ==_refl author) refl in
    (
      ap (λ r. r.0) same ∙ ap (λ r. r ∷ []) made.0,
      rw same (nameless_stays author (create_team db author [] t).1 stuck [] is_member refl),
      rw (same, is_member) refl,
    )

taken_name :
    (db : Collation) (author : ℕ) (name : Text) (t : Tables) (row : Team) (rows : List Team)
    → teams_named db name t.teams ≡ row ∷ rows
    → create_team db author name t ≡ ("CANTCREATE" ∷ [], t)
unfolding create_team
taken_name db author name t row rows e = rw (e, create_team) refl

create_twice :
    (db : Collation) (author : ℕ) (name : Text) (t : Tables)
    → members_of author t.members ≡ []
    → teams_named db name t.teams ≡ []
    → db.same name name ≡ true
    → create_each db author name (unmarked ∷ unmarked ∷ []) t ≡ (
      ("CREATED" ∷ "ZELDAREFERENCE" ∷ []) ∷ ("CANTCREATE" ∷ []) ∷ [],
      (create_team db author name t).1,
    )
unfolding create_each
create_twice db author name t free unnamed own =
    let made = create_team_fresh db author name t free unnamed own in
    let fresh : Team = record {
      name = name;
      score = 0;
      owner_id = some author;
      qualifying_score = none;
    } in
    let made_teams = (create_team db author name t).1.teams in
    let named : teams_named db name made_teams ≡ fresh ∷ [] =
      rw made.1 (teams_named_fresh db name t.teams fresh unnamed own) in
    rw (taken_name db author name (create_team db author name t).1 fresh [] named, made.0)

abbrev pub malformed_answer : Answer
malformed_answer = record { success = true; body = some malformed }

-- When the censor's service answers with a body that is not well formed, its callback is called
-- twice: a player with no team who makes a team of a name that no team has gets their team, and is
-- told CREATED and then CANTCREATE.
create_call_malformed :
    (db : Collation) (author : ℕ) (tokens : Text) (t : Tables)
    → members_of author t.members ≡ []
    → teams_named db (trim (replaced (trim (getline tokens)) (64 ∷ []) [])) t.teams ≡ []
    → ((n : Text) → db.same n n ≡ true)
    → create_call db (λ n. contains_bad_word malformed_answer) author tokens t ≡ (
      ("CREATED" ∷ "ZELDAREFERENCE" ∷ []) ∷ ("CANTCREATE" ∷ []) ∷ [],
      (create_team db author (trim (replaced (trim (getline tokens)) (64 ∷ []) [])) t).1,
    )
unfolding contains_bad_word after_parse
create_call_malformed db author tokens t free unnamed own =
    let name = trim (replaced (trim (getline tokens)) (64 ∷ []) []) in
    create_call_clean db (λ n. contains_bad_word malformed_answer) author tokens t free
    ∙ create_twice db author name t free unnamed (own name)
