-- ===== src/Module/Cache.antt =====
-- The settings of a guild are read from the database once a minute.
use triviabot.Common.{
  ℕ, ◌+◌, ◌≤◌, ◌≡◌, refl, false, Option, none, some, ltb, ==_refl, lookup, erase, lookup-insert,
  lookup-erase, arith, Option-cases, Bool-cases, inl, inr, ◌∙◌,
}
use triviabot.Settings.{GuildSettings}
use triviabot.Module.{Cache, erase_cache, emplace, fetch_settings, get_guild_settings}

emplace-kept :
    (guild : ℕ) (gs : GuildSettings) (c : Cache)
    → lookup guild c ≡ none
    → lookup guild (emplace guild gs c) ≡ some gs
unfolding emplace
emplace-kept guild gs c h =
    rw (h, emplace) (lookup-insert guild guild gs c ∙ rw (==_refl guild) refl)

fetch_settings-kept :
    (now guild : ℕ) (row : Option GuildSettings) (c : Cache)
    → lookup guild c ≡ none
    → lookup guild (fetch_settings now guild row c).1 ≡ some (fetch_settings now guild row c).0
unfolding fetch_settings
fetch_settings-kept now guild row c h =
    let gs = (fetch_settings now guild row c).0 in emplace-kept guild gs c h

get_guild_settings-kept :
    (now guild : ℕ) (row : Option GuildSettings) (c : Cache)
    → lookup guild (get_guild_settings now guild row c).1
      ≡ some (get_guild_settings now guild row c).0
unfolding get_guild_settings erase_cache
get_guild_settings-kept now guild row c = elim (Option-cases (lookup guild c)) [
  | inl e ↦ rw (e, get_guild_settings) (fetch_settings-kept now guild row c e)
  | inr (gs, e) ↦
      rw (e, get_guild_settings)
        (elim (Bool-cases (ltb (gs.time + 60) now)) [
          | inl old ↦
              rw (old, get_guild_settings)
                (fetch_settings-kept now guild row (erase guild c)
                  (lookup-erase guild guild c ∙ rw (==_refl guild) refl))
          | inr new ↦ rw (new, get_guild_settings) e
        ])
]

hit :
    (later guild : ℕ) (newer : Option GuildSettings) (gs : GuildSettings) (c : Cache)
    → lookup guild c ≡ some gs
    → later ≤ gs.time + 60
    → get_guild_settings later guild newer c ≡ (gs, c)
unfolding get_guild_settings
hit later guild newer gs c e h =
    let new : ltb (gs.time + 60) later ≡ false = ground arith in
    rw (e, get_guild_settings, new) refl

miss :
    (later guild : ℕ) (newer : Option GuildSettings) (c : Cache)
    → lookup guild c ≡ none
    → get_guild_settings later guild newer c ≡ fetch_settings later guild newer c
unfolding get_guild_settings
miss later guild newer c e = rw (e, get_guild_settings) refl

-- Until the settings that a call gives are more than 60 seconds old, every call for the guild gives
-- the same and leaves the cache, whatever the database holds by then. When the cache entry is
-- erased, the next call reads the database.
get_guild_settings_cached :
    (now later guild : ℕ) (row newer : Option GuildSettings) (c : Cache)
    → later ≤ (get_guild_settings now guild row c).0.time + 60
    → (get_guild_settings later guild newer (get_guild_settings now guild row c).1
        ≡ get_guild_settings now guild row c)
      × (get_guild_settings later guild newer
            (erase_cache guild (get_guild_settings now guild row c).1)
          ≡ fetch_settings later guild newer
              (erase_cache guild (get_guild_settings now guild row c).1))
get_guild_settings_cached now later guild row newer c h =
    let first = get_guild_settings now guild row c in
    (
      hit later guild newer first.0 first.1 (get_guild_settings-kept now guild row c) h,
      miss later guild newer (erase_cache guild first.1)
          (unfold erase_cache in lookup-erase guild guild first.1 ∙ rw (==_refl guild) refl),
    )
