-- ===== src/Teams/Points.antt =====
-- The points of a team.
use triviabot.Common.{ℕ, ◌+◌, ◌<◌, ◌≡◌, refl, List, [], ◌∷◌, map, keep, ◌==◌, if◌then◌else◌, arith}
use triviabot.Text.{Text}
use triviabot.Teams.{
  Team, Member, Tables, Collation, teams_named, first_score, get_team_points, score_more,
  add_team_points,
}

-- Adding points keeps the rows that have a name, each with its points.
teams_named-map :
    (db : Collation) (team other : Text) (points : ℕ) (rows : List Team)
    → teams_named db other (map (score_more db team points) rows)
      ≡ map (score_more db team points) (teams_named db other rows)
unfolding teams_named score_more keep
teams_named-map db team other points [] = refl
teams_named-map db team other points (row ∷ rows) =
    ground (arith, teams_named-map db team other points rows)

-- Where a name has a row and its score stays within 32 bits: adding points to a team, named the same
-- or otherwise, adds them to what is read for the first name if the database takes the name of its
-- row to be that of the team, and changes nothing else of it.
get_team_points-add_team_points :
    (db : Collation) (team other : Text) (points user : ℕ) (t : Tables) (row : Team)
    (rows : List Team)
    → teams_named db other t.teams ≡ row ∷ rows
    → row.score + points < 4294967296
    → get_team_points db other (add_team_points db team points user t)
      ≡ get_team_points db other t + (if db.same row.name team then points else 0)
unfolding get_team_points add_team_points first_score
get_team_points-add_team_points db team other points user t row rows e small =
    rw (teams_named-map db team other points t.teams, e) (ground arith)

-- What the members named `nick` have contributed.
abbrev pub contributed : (nick : ℕ) → List Member → ℕ
contributed nick [] = 0
contributed nick (m ∷ ms) =
    (if m.nick == nick then m.points_contributed else 0) + contributed nick ms
