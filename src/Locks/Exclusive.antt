-- ===== src/Locks/Exclusive.antt =====
-- A user scores on one guild in any minute.
use triviabot.Common.{
  ℕ, ◌+◌, ◌≤◌, ◌<◌, ◌≡◌, ◌≢◌, refl, true, false, ◌==◌, if◌then◌else◌, List, [], ◌∷◌, Option, none,
  some, arith, All, lookup, insert, lookup-insert, ◌↔◌, ◌⊎◌,
}
use triviabot.Locks.{Lock, Locks, refresh, can_score_on_guild}

-- A call of can_score_on_guild.
pub record Attempt : Type 0 where
  pub user : ℕ
  pub guild : ℕ
  pub time : ℕ

-- The table after a sequence of calls.
unfoldable pub attempts : List Attempt → Locks → Locks
attempts [] db = db
attempts (a ∷ as') db = attempts as' (can_score_on_guild a.user a.guild a.time db).1

-- The row that a call leaves for its user.
row_after : ℕ → ℕ → Option Lock → Lock
row_after guild now none = record { guild_id = guild; updated_at = now }
row_after guild now (some l) = refresh guild now l

module _ (user guild now : ℕ) (db : Locks) where
  table_after :
      (can_score_on_guild user guild now db).1
      ≡ insert user (row_after guild now (lookup user db)) db
  unfolding can_score_on_guild row_after
  table_after = ground arith

  row_after_call :
      (j : ℕ)
      → lookup j (can_score_on_guild user guild now db).1
        ≡ (if user == j then some (row_after guild now (lookup user db)) else lookup j db)
  row_after_call j = rw table_after (lookup-insert user j _ db)

  answer_of_call :
      (can_score_on_guild user guild now db).0
      ≡ ((row_after guild now (lookup user db)).guild_id == guild)
  unfolding can_score_on_guild row_after
  answer_of_call = ground (arith, lookup-insert user user (row_after guild now (lookup user db)) db)

-- The row holds the guild, and was written at time `t` or later.
abbrev Held : ℕ → ℕ → Option Lock → Type 0
Held guild t none = ⊥
Held guild t (some l) = (l.guild_id ≡ guild) × (t ≤ l.updated_at)

grant-Held :
    (user guild now : ℕ) (db : Locks)
    → (can_score_on_guild user guild now db).0 ≡ true
    → Held guild now (lookup user (can_score_on_guild user guild now db).1)
unfolding row_after refresh
grant-Held user guild now db h =
    ground (arith, answer_of_call user guild now db, row_after_call user guild now db user)

-- A call within the minute, by anyone and for any guild, leaves the lock held.
call-Held :
    (user guild t : ℕ) (a : Attempt) (db : Locks)
    → t ≤ a.time
    → a.time < t + 60
    → Held guild t (lookup user db)
    → Held guild t (lookup user (can_score_on_guild a.user a.guild a.time db).1)
unfolding row_after refresh
call-Held user guild t a db low high h =
    ground (arith, row_after_call a.user a.guild a.time db user)

abbrev pub Within : ℕ → List Attempt → Type 0
Within t = All (λ a. (t ≤ a.time) × (a.time < t + 60))

attempts-Held :
    (user guild t : ℕ) (calls : List Attempt) (db : Locks)
    → Within t calls
    → Held guild t (lookup user db)
    → Held guild t (lookup user (attempts calls db))
unfolding attempts
attempts-Held user guild t [] db w h = h
attempts-Held user guild t (a ∷ calls) db w h =
    attempts-Held user guild t calls _ w.1 (call-Held user guild t a db w.0.0 w.0.1 h)

refused :
    (user guild other t now : ℕ) (db : Locks)
    → guild ≢ other
    → now < t + 60
    → Held guild t (lookup user db)
    → (can_score_on_guild user other now db).0 ≡ false
unfolding row_after refresh
refused user guild other t now db ne lt h = ground (arith, answer_of_call user other now db)

-- Once a user may score on a guild at time `t`, a question on another guild earns that user
-- nothing for the next 60 seconds, whatever calls for whatever users come in between.
pub one_guild_per_minute :
    (user guild other t now : ℕ) (calls : List Attempt) (db : Locks)
    → (can_score_on_guild user guild t db).0 ≡ true
    → guild ≢ other
    → Within t calls
    → now < t + 60
    → (can_score_on_guild user other now (attempts calls (can_score_on_guild user guild t db).1)).0
      ≡ false
one_guild_per_minute user guild other t now calls db granted ne w lt =
    refused user guild other t now _ ne lt
      (attempts-Held user guild t calls _ w (grant-Held user guild t db granted))

-- A user with this row may score on the guild: there is no row, or it is of this guild, or it is at
-- least 60 seconds old.
abbrev pub MayScore : ℕ → ℕ → Option Lock → Type 0
MayScore guild now none = Unit {0}
MayScore guild now (some l) = (l.guild_id ≡ guild) ⊎ (l.updated_at + 60 ≤ now)

row_after-MayScore :
    (guild now : ℕ) (row : Option Lock)
    → ((row_after guild now row).guild_id ≡ guild) ↔ MayScore guild now row
unfolding row_after refresh
row_after-MayScore guild now none = (λ _. tt, λ _. refl)
row_after-MayScore guild now (some l) = (λ h. ground arith, λ h. ground arith)

-- can_score_on_guild answers yes exactly when the user has no row, or the row is of this guild, or the row is
-- at least 60 seconds old.
pub can_score_iff :
    (user guild now : ℕ) (db : Locks)
    → ((can_score_on_guild user guild now db).0 ≡ true) ↔ MayScore guild now (lookup user db)
can_score_iff user guild now db =
    let same = row_after-MayScore guild now (lookup user db) in
    let answer = answer_of_call user guild now db in
    (λ h. same.0 (ground arith), λ m. let e = same.1 m in ground arith)
