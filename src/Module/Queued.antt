-- ===== src/Module/Queued.antt =====
-- Starts that the dashboard has queued: TriviaModule::CheckForQueuedStarts of modules/trivia/trivia.cpp.
pub mod Read
use triviabot.Common.{
  ℕ, zero, suc, ◌+◌, ◌*◌, ◌/◌, ◌%◌, ◌≤◌, ◌<◌, ◌≡◌, ◌≢◌, refl, sym, ◌∙◌, ap, Bool, true, false, not,
  ◌&&◌, ◌||◌, List, [], ◌∷◌, ◌++◌, Option, none, some, length, keep, map, keep-keep, keep_ext,
  is_empty, text_eq, ltb, ◌==◌, if◌then◌else◌, inl, inr, ◌⊎◌, Bool-cases, arith,
}
use native.Mathlib.Nat.{mod-lt}
use triviabot.Text.{Text, ascii, to_string, is_space, lowercase, trim, getline}
use triviabot.Host.{Host}
use triviabot.Text.Words.{IsWord, IsBehind, trim_space}
use triviabot.Start.{StartCmd, parse_request}
use triviabot.Start.Reading.{command_read}
use triviabot.Commands.Handle.{Command, base_command}
use triviabot.Module.{cluster_of}

-- A row of `start_queue`; the numbers are read from texts.
pub record QueuedStart : Type 0 where
  pub guild_id : ℕ
  pub channel_id : ℕ
  pub user_id : ℕ
  pub questions : ℕ
  pub quickfire : ℕ
  pub hintless : ℕ
  pub category : Text

unfoldable pub start_name : QueuedStart → Text
start_name r =
    if not (r.hintless == 0)
    then ascii "hardcore"
    else if not (r.quickfire == 0)
    then ascii "quickfire"
    else ascii "start"

-- queue_command hands it to handle_command at once, as of the dashboard and of a member without roles.
unfoldable pub queued_of : Host → QueuedStart → Command
unfolding start_name
queued_of host r = record {
  msg = host.format (ascii "{} {}{}") (
      start_name r
      ∷ to_string r.questions
      ∷ (if is_empty r.category then [] else 32 ∷ r.category)
      ∷ []);
  author_id = r.user_id;
  channel_id = r.channel_id;
  guild_id = r.guild_id;
  interaction_token = [];
  from_dashboard = true;
  roles = [];
}

-- "DELETE FROM start_queue WHERE channel_id = ?"
unfoldable pub delete_channel : ℕ → List QueuedStart → List QueuedStart
delete_channel channel = keep λ r. not (r.channel_id == channel)

-- Whether the guild is on this cluster.
unfoldable pub on_cluster : (max_shards max_clusters cluster guild_id : ℕ) → Option Bool
on_cluster max_shards max_clusters cluster guild_id =
    elim (cluster_of max_shards max_clusters guild_id) [
      | none ↦ none
      | some k ↦ some (k == cluster)
    ]

unfoldable pub handled_first :
    Command → Option (List Command × List QueuedStart) → Option (List Command × List QueuedStart)
handled_first cmd none = none
handled_first cmd (some (cmds, start_queue)) = some (cmd ∷ cmds, start_queue)

-- The loop over the rows that were read: the commands that are handled, and what is left in the table;
-- `none` where it divides by zero.
unfoldable pub start_rows :
    Host
    → (max_shards max_clusters cluster : ℕ) (rows start_queue : List QueuedStart)
    → Option (List Command × List QueuedStart)
unfolding queued_of delete_channel
start_rows host max_shards max_clusters cluster [] start_queue = some ([], start_queue)
start_rows host max_shards max_clusters cluster (r ∷ rows) start_queue =
    let mine =
      start_rows host max_shards max_clusters cluster rows
        (delete_channel r.channel_id start_queue) in
    let others = start_rows host max_shards max_clusters cluster rows start_queue in
    elim (on_cluster max_shards max_clusters cluster r.guild_id) [
      | none ↦ none
      | some here ↦ if here then handled_first (queued_of host r) mine else others
    ]

unfoldable pub check_for_queued_starts :
    Host
    → (max_shards max_clusters cluster : ℕ) (start_queue : List QueuedStart)
    → Option (List Command × List QueuedStart)
check_for_queued_starts host max_shards max_clusters cluster start_queue =
    start_rows host max_shards max_clusters cluster start_queue start_queue

-- The shards of Discord are dealt to the clusters in turn, and the guilds to the shards.
abbrev pub is_here : (max_shards max_clusters cluster : ℕ) → QueuedStart → Bool
is_here max_shards max_clusters cluster r =
    r.guild_id / 4194304 % max_shards % max_clusters == cluster

-- The rows of guilds on a cluster.
abbrev pub mine : (max_shards max_clusters cluster : ℕ) → List QueuedStart → List QueuedStart
mine max_shards max_clusters cluster = keep (is_here max_shards max_clusters cluster)

abbrev pub has_channel : (channel : ℕ) → List QueuedStart → Bool
has_channel channel [] = false
has_channel channel (r ∷ rows) = r.channel_id == channel || has_channel channel rows

-- The rows in other channels than those for which a command has been handled.
abbrev pub left : (handled start_queue : List QueuedStart) → List QueuedStart
left handled = keep λ r. not (has_channel r.channel_id handled)

left-delete_channel :
    (r : QueuedStart) (handled start_queue : List QueuedStart)
    → left handled (delete_channel r.channel_id start_queue) ≡ left (r ∷ handled) start_queue
unfolding delete_channel
left-delete_channel r handled start_queue =
    keep-keep (λ q. not (q.channel_id == r.channel_id))
      (λ q. not (has_channel q.channel_id handled)) start_queue
    ∙ keep_ext _ (λ q. not (has_channel q.channel_id (r ∷ handled))) (λ q. ground arith) start_queue

left_none : (start_queue : List QueuedStart) → left [] start_queue ≡ start_queue
unfolding keep
left_none [] = refl
left_none (r ∷ start_queue) = ap (λ t. r ∷ t) (left_none start_queue)

on_cluster_lem :
    (max_shards max_clusters cluster : ℕ) (r : QueuedStart)
    → 0 < max_shards
    → 0 < max_clusters
    → on_cluster max_shards max_clusters cluster r.guild_id
      ≡ some (is_here max_shards max_clusters cluster r)
unfolding on_cluster cluster_of
on_cluster_lem max_shards max_clusters cluster r s c =
    let no_shards : (max_shards == 0) ≡ false = ground arith in
    let no_clusters : (max_clusters == 0) ≡ false = ground arith in
    ground (arith, no_shards, no_clusters)

handled_first_lem :
    (cmd : Command) (cmds : List Command) (before after : List QueuedStart)
    → (o : Option (List Command × List QueuedStart)) → o ≡ some (cmds, before)
    → before ≡ after
    → handled_first cmd o ≡ some (cmd ∷ cmds, after)
unfolding handled_first
handled_first_lem cmd cmds before after o e same =
    rw (e, handled_first) (ap (λ t. some (cmd ∷ cmds, t)) same)

module _ (host : Host) (max_shards max_clusters cluster : ℕ) (some_shard : 0 < max_shards)
    (some_cluster : 0 < max_clusters) where
  start_here :
      (r : QueuedStart) (rows start_queue : List QueuedStart)
      → on_cluster max_shards max_clusters cluster r.guild_id ≡ some true
      → start_rows host max_shards max_clusters cluster (r ∷ rows) start_queue
        ≡ handled_first (queued_of host r) (
            start_rows host max_shards max_clusters cluster rows
              (delete_channel r.channel_id start_queue))
  unfolding start_rows
  start_here r rows start_queue e = ground (arith, e)

  start_there :
      (r : QueuedStart) (rows start_queue : List QueuedStart)
      → on_cluster max_shards max_clusters cluster r.guild_id ≡ some false
      → start_rows host max_shards max_clusters cluster (r ∷ rows) start_queue
        ≡ start_rows host max_shards max_clusters cluster rows start_queue
  unfolding start_rows
  start_there r rows start_queue e = ground (arith, e)

  start_rows_lem :
      (rows start_queue : List QueuedStart)
      → start_rows host max_shards max_clusters cluster rows start_queue
        ≡ some (
          map (queued_of host) (mine max_shards max_clusters cluster rows),
          left (mine max_shards max_clusters cluster rows) start_queue,
        )
  unfolding start_rows keep
  start_rows_lem [] start_queue = ap (λ t. some ([], t)) (sym (left_none start_queue))
  start_rows_lem (r ∷ rows) start_queue =
      let here = on_cluster_lem max_shards max_clusters cluster r some_shard some_cluster in
      elim (Bool-cases (is_here max_shards max_clusters cluster r)) [
        | inl e ↦
            let handled = mine max_shards max_clusters cluster rows in
            start_here r rows start_queue (here ∙ ap some e)
            ∙ rw e (
                handled_first_lem (queued_of host r) (map (queued_of host) handled) _ _ _
                  (start_rows_lem rows (delete_channel r.channel_id start_queue))
                  (left-delete_channel r handled start_queue))
        | inr e ↦
            start_there r rows start_queue (here ∙ ap some e)
            ∙ rw e (start_rows_lem rows start_queue)
      ]

-- No row of the cluster is left.
gone :
    (max_shards max_clusters cluster : ℕ) (handled rows : List QueuedStart)
    → ((c : ℕ)
        → has_channel c (mine max_shards max_clusters cluster rows) ≡ true
        → has_channel c handled ≡ true)
    → mine max_shards max_clusters cluster (left handled rows) ≡ []
unfolding keep
gone max_shards max_clusters cluster handled [] h = refl
gone max_shards max_clusters cluster handled (r ∷ rows) h =
    let rest =
      gone max_shards max_clusters cluster handled rows (λ c there. h c (ground (arith, there))) in
    elim (Bool-cases (is_here max_shards max_clusters cluster r)) [
      | inl e ↦
          let there : has_channel r.channel_id handled ≡ true =
            h r.channel_id (ground (arith, e)) in
          ground (arith, there, rest)
      | inr e ↦ ground (arith, e, rest)
    ]

-- A check on one of the clusters handles one command for each row of a guild on that cluster, in the
-- order of the table, and deletes exactly the rows in the channels of these rows, so that none of its
-- rows is left for a later check; and each guild is on one of the clusters. There must be a shard and a
-- cluster; with no shard, a check with a row in the table divides by zero.
pub check_for_queued_starts_lem :
    (host : Host) (max_shards max_clusters cluster : ℕ) (start_queue : List QueuedStart)
    → 0 < max_shards
    → 0 < max_clusters
    → let own = mine max_shards max_clusters cluster start_queue in
      (check_for_queued_starts host max_shards max_clusters cluster start_queue
        ≡ some (map (queued_of host) own, left own start_queue))
      × (mine max_shards max_clusters cluster (left own start_queue) ≡ [])
      × ((r : QueuedStart)
          → (k : ℕ) × (k < max_clusters) × (mine max_shards max_clusters k (r ∷ []) ≡ r ∷ []))
      × ((r : QueuedStart) (rows : List QueuedStart)
          → check_for_queued_starts host 0 max_clusters cluster (r ∷ rows) ≡ none)
unfolding check_for_queued_starts start_rows on_cluster cluster_of keep
check_for_queued_starts_lem host max_shards max_clusters cluster start_queue some_shard
      some_cluster =
    (
      start_rows_lem host max_shards max_clusters cluster some_shard some_cluster start_queue
          start_queue,
      gone max_shards max_clusters cluster _ start_queue (λ c there. there),
      λ r. (
        r.guild_id / 4194304 % max_shards % max_clusters,
        mod-lt (r.guild_id / 4194304 % max_shards) some_cluster,
        ground arith,
      ),
      λ r rows. refl,
    )
