-- ===== src/Examples/Teams.antt =====
-- Teams at concrete ones.
use triviabot.Common.{
  ℕ, ◌≡◌, ◌⊎◌, ◌&&◌, is_empty, refl, [], ◌∷◌, ◌++◌, none, some, arith, text_eq, text_eq_refl, keep,
  ◌==◌, if◌then◌else◌,
}
use triviabot.Text.{Text, ascii, trim, ltrim, rtrim, is_space, getline, replaced}
use triviabot.Text.{replace_string, replace_loop, find, starts_with, lowercase, tolower, take, drop}
use triviabot.Teams.{
  Team, Member, Tables, Collation, members_of, teams_named, join_call, leave_call, create_team,
}
use triviabot.Teams.Membership.{AtMostOne}
use triviabot.Teams.Commands.{leave, Step-AtMostOne}
use triviabot.Teams.Joining.{join_call_members}
use triviabot.Teams.Creating.{create_team_fresh}

-- Names are compared byte by byte, and the view has no rows.
abbrev bytewise : Collation
bytewise = record { same = text_eq; scorechart = λ name. none }

abbrev reds : Team
reds = record { name = ascii "Reds"; score = 10; owner_id = some 1; qualifying_score = none }

abbrev strict : Team
strict = record { name = ascii "Pros"; score = 0; owner_id = none; qualifying_score = some 100 }

abbrev anna : Member
anna = record { nick = 1; team = ascii "Reds"; points_contributed = 10 }

abbrev tables : Tables
tables = record { teams = reds ∷ strict ∷ []; members = anna ∷ [] }

abbrev no_tables : Tables
no_tables = record { teams = []; members = [] }

one_each : AtMostOne tables
unfolding members_of keep
one_each u = ground arith

Step-AtMostOne_example : AtMostOne (leave_call 1 tables).1
Step-AtMostOne_example = Step-AtMostOne {db = bytewise} (leave 1 tables) one_each

-- A member of a team asks for another one, which is there.
join_call_members_example :
    let (reply, after) = join_call bytewise 1 (ascii " Pros") tables in
    ((after ≡ tables)
      × ((reply ≡ "CANTJOIN" ∷ []) ⊎ (reply ≡ "MIN_REQUIREMENT" ∷ "MIN_REQ_HEADER" ∷ [])))
    ⊎ ((reply ≡ "JOINED" ∷ "CALLFORBACKUP" ∷ [])
        × ((u : ℕ)
            → members_of u after.members ≡ (
                if u == 1 && is_empty (members_of 1 tables.members)
                then record {
                  nick = 1;
                  team = trim (getline (ascii " Pros"));
                  points_contributed = 0;
                }
                  ∷ []
                else members_of u tables.members)))
join_call_members_example = join_call_members bytewise 1 (ascii " Pros") tables

nobody : members_of 2 tables.members ≡ []
unfolding members_of keep
nobody = refl

unnamed : teams_named bytewise (ascii "Blues") tables.teams ≡ []
unfolding teams_named keep text_eq
unnamed = refl

create_team_fresh_example :
    ((create_team bytewise 2 (ascii "Blues") tables).0 ≡ "CREATED" ∷ "ZELDAREFERENCE" ∷ [])
    × ((create_team bytewise 2 (ascii "Blues") tables).1.teams
        ≡ tables.teams
          ++ record { name = ascii "Blues"; score = 0; owner_id = some 2; qualifying_score = none }
            ∷ [])
    × ((u : ℕ)
        → members_of u (create_team bytewise 2 (ascii "Blues") tables).1.members ≡ (
            if u == 2
            then record { nick = 2; team = ascii "Blues"; points_contributed = 0 } ∷ []
            else members_of u tables.members))
create_team_fresh_example =
    create_team_fresh bytewise 2 (ascii "Blues") tables nobody unnamed
      (text_eq_refl (ascii "Blues"))

blank : trim (replaced (trim (getline (ascii "  "))) (64 ∷ []) []) ≡ []
unfolding trim ltrim rtrim is_space getline replaced replace_string replace_loop find starts_with
    lowercase tolower take drop
blank = refl

no_member : members_of 2 [] ≡ []
unfolding members_of keep
no_member = refl

no_team : (name : Text) → teams_named bytewise name [] ≡ []
unfolding teams_named keep
no_team name = refl
