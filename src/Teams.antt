-- ===== src/Teams.antt =====
-- Teams: get_current_team, leave_team, join_team, add_team_points and get_team_points of
-- modules/trivia/webrequest.cpp on the tables `teams` and `team_membership`, and the commands of
-- modules/trivia/cmd_join.cpp, cmd_leave.cpp and cmd_create.cpp.
pub mod Censor
pub mod Membership
pub mod Points
pub mod Commands
pub mod Joining
pub mod Creating
use triviabot.Common.{
  ℕ, ◌+◌, ◌-◌, String, Bool, true, false, not, ◌&&◌, List, [], ◌∷◌, ◌++◌, map, keep, Option, none,
  some, ltb, leb, ◌==◌, if◌then◌else◌, is_empty,
}
use triviabot.Text.{Text, getline, trim, replaced}
use triviabot.Teams.Censor.{SwearFilter}

-- A row of `teams`; a column that may be NULL is an option.
pub record Team : Type 0 where
  pub name : Text
  pub score : ℕ
  pub owner_id : Option ℕ
  pub qualifying_score : Option ℕ

-- A row of `team_membership`.
pub record Member : Type 0 where
  pub nick : ℕ
  pub team : Text
  pub points_contributed : ℕ

pub record Tables : Type 0 where
  pub teams : List Team
  pub members : List Member

-- What the database decides: whether it takes two names to be the same, in its collation, and the
-- score in the row of a name of the view `vw_scorechart`, where there is one.
pub record Collation : Type 0 where
  pub same : Text → Text → Bool
  pub scorechart : Text → Option ℕ

unfoldable pub members_of : (nick : ℕ) → List Member → List Member
members_of nick = keep (λ (m : Member). m.nick == nick)

unfoldable pub first_team : List Member → Text
first_team [] = []
first_team (m ∷ ms) = m.team

unfoldable pub get_current_team : (snowflake_id : ℕ) → Tables → Text
unfolding members_of first_team
get_current_team snowflake_id t = first_team (members_of snowflake_id t.members)

unfoldable pub leave_team : (snowflake_id : ℕ) → Tables → Tables
leave_team snowflake_id t = record t {
  members = keep (λ (m : Member). not (m.nick == snowflake_id)) t.members;
}

-- "UPDATE teams SET owner_id = … WHERE name = … AND owner_id IS NULL", on one row.
unfoldable pub take_over : Collation → (snowflake_id : ℕ) → (team : Text) → Team → Team
take_over db snowflake_id team row = elim row.owner_id [
  | none ↦ if db.same row.name team then record row { owner_id = some snowflake_id } else row
  | some owner ↦ row
]

unfoldable pub claim : Collation → (snowflake_id : ℕ) → (team : Text) → Tables → Tables
unfolding take_over
claim db snowflake_id team t = record t { teams = map (take_over db snowflake_id team) t.teams }

-- join_team returns whether there is such a team, or throws JoinNotQualifiedException.
pub data Joined : Type 0 where
  joined : Bool → Joined
  not_qualified : (score required : ℕ) → Joined

-- The part of join_team behind the qualifying score.
unfoldable pub enter : Collation → (snowflake_id : ℕ) → (team : Text) → Tables → Joined × Tables
enter db snowflake_id team t =
    let row : Member = record { nick = snowflake_id; team = team; points_contributed = 0 } in
    let left = leave_team snowflake_id t in
    elim (members_of snowflake_id t.members) [
      | [] ↦ (
        joined true,
        claim db snowflake_id team (record left { members = left.members ++ row ∷ [] }),
      )
      | m ∷ ms ↦ (joined true, claim db snowflake_id team t)
    ]

unfoldable pub chart_score : Collation → Text → ℕ
chart_score db team = elim (db.scorechart team) [ none ↦ 0 | some score ↦ score ]

unfoldable pub qualify :
    Collation → (snowflake_id : ℕ) → (team : Text) → Option ℕ → Tables → Joined × Tables
qualify db snowflake_id team none t = enter db snowflake_id team t
qualify db snowflake_id team (some required) t =
    if ltb 0 required && ltb (chart_score db team) required
    then (not_qualified (chart_score db team) required, t)
    else enter db snowflake_id team t

unfoldable pub teams_named : Collation → (team : Text) → List Team → List Team
teams_named db team = keep (λ (row : Team). db.same row.name team)

unfoldable pub join_team : Collation → (snowflake_id : ℕ) → (team : Text) → Tables → Joined × Tables
join_team db snowflake_id team t = elim (teams_named db team t.teams) [
  | [] ↦ (joined false, t)
  | info ∷ rows ↦ qualify db snowflake_id team info.qualifying_score t
]

-- "UPDATE teams SET score = score + …", on one row, and likewise for a member.
unfoldable pub score_more : Collation → (team : Text) → (points : ℕ) → Team → Team
score_more db team points row =
    if db.same row.name team then record row { score = row.score + points } else row

unfoldable pub contribute : (snowflake_id points : ℕ) → Member → Member
contribute snowflake_id points m =
    if m.nick == snowflake_id
    then record m { points_contributed = m.points_contributed + points }
    else m

unfoldable pub add_team_points :
    Collation → (team : Text) → (points snowflake_id : ℕ) → Tables → Tables
unfolding score_more contribute
add_team_points db team points snowflake_id t = record {
  teams = map (score_more db team points) t.teams;
  members = if snowflake_id == 0 then t.members else map (contribute snowflake_id points) t.members;
}

-- The score of the first row, as `from_string<uint32_t>` reads it.
unfoldable pub first_score : List Team → ℕ
first_score [] = 0
first_score (row ∷ rows) = if ltb row.score 4294967296 then row.score else 4294967295

unfoldable pub get_team_points : Collation → (team : Text) → Tables → ℕ
get_team_points db team t = first_score (teams_named db team t.teams)

-- The language strings of the reply to a command.
abbrev pub Reply : Type 0
Reply = List String

unfoldable pub join_reply : Joined → Reply
join_reply (joined true) = "JOINED" ∷ "CALLFORBACKUP" ∷ []
join_reply (joined false) = "CANTJOIN" ∷ []
join_reply (not_qualified score required) = "MIN_REQUIREMENT" ∷ "MIN_REQ_HEADER" ∷ []

-- command_join_t::call.
unfoldable pub join_call : Collation → (author : ℕ) → (tokens : Text) → Tables → Reply × Tables
join_call db author tokens t =
    let (result, t') = join_team db author (trim (getline tokens)) t in (join_reply result, t')

-- command_leave_t::call.
unfoldable pub leave_call : (author : ℕ) → Tables → Reply × Tables
leave_call author t =
    if is_empty (get_current_team author t)
    then ("YOULONER" ∷ [], t)
    else ("LEFTTEAM" ∷ "COMEBACK" ∷ [], leave_team author t)

unfoldable pub create_reply : Joined → Reply
create_reply (joined found) = "CREATED" ∷ "ZELDAREFERENCE" ∷ []
create_reply (not_qualified score required) = "CANTCREATE" ∷ []

-- The part of command_create_t::call behind the censor, with the name that it has cleaned.
unfoldable pub create_team : Collation → (author : ℕ) → (name : Text) → Tables → Reply × Tables
create_team db author name t =
    let fresh : Team = record {
      name = name;
      score = 0;
      owner_id = none;
      qualifying_score = none;
    } in
    let (result, t') = join_team db author name (record t { teams = t.teams ++ fresh ∷ [] }) in
    elim (teams_named db name t.teams) [
      | [] ↦ (create_reply result, t')
      | row ∷ rows ↦ ("CANTCREATE" ∷ [], t)
    ]

-- The callback of command_create_t::call, for each time that the censor calls it.
unfoldable pub create_each :
    Collation → (author : ℕ) → (name : Text) → List SwearFilter → Tables → List Reply × Tables
create_each db author name [] t = ([], t)
create_each db author name (cc ∷ ccs) t =
    let cleaned = if cc.clean then name else cc.censored_content in
    let (reply, t') = create_team db author cleaned t in
    let (replies, t'') = create_each db author name ccs t' in (reply ∷ replies, t'')

-- command_create_t::call, with what the censor answers about the name.
unfoldable pub create_call :
    Collation
    → (censor : Text → List SwearFilter) → (author : ℕ) → (tokens : Text) → Tables
    → List Reply × Tables
create_call db censor author tokens t =
    let name = trim (replaced (trim (getline tokens)) (64 ∷ []) []) in
    if is_empty (get_current_team author t)
    then create_each db author name (censor name) t
    else (("ALREADYMEMBER" ∷ []) ∷ [], t)
