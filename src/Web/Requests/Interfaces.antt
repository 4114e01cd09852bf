-- ===== src/Web/Requests/Interfaces.antt =====
-- Requests go over the interfaces of the machine in turn.
use triviabot.Common.{
  ℕ, ◌+◌, ◌<◌, ◌≤◌, ◌≡◌, refl, ◌∙◌, List, [], ◌∷◌, none, some, lookup, get_elem?,
  get_elem?_in_range, length, zero, suc, inl, inr, ◌⊎◌, Bool-cases, Option-cases, ◌==◌, ltb,
  if◌then◌else◌, arith,
}
use triviabot.Text.{Text}
use triviabot.Web.Queues.{FireAndForget}
use triviabot.Web.Requests.{
  getinterface, Response, Reply, no_result, result, thrown, Web, Env, act, hold_back,
  forget_webhook, note_limit, obey_limit, heed_limit, wait_out, counted, after_get, after_post,
  request_on, web_request, get, post,
}

hold_back-index : (now c : ℕ) (w : Web) → (hold_back now c w).interface_index ≡ w.interface_index
unfolding hold_back act
hold_back-index now c w = elim (Option-cases (lookup c w.channellock)) [
  | inl e ↦ ground arith
  | inr (l, e) ↦ ground arith
]

forget_webhook-index :
    (env : Env) (f : FireAndForget) (res : Response) (w : Web)
    → (forget_webhook env f res w).interface_index ≡ w.interface_index
unfolding forget_webhook act
forget_webhook-index env f res w = ground arith

obey_limit-index :
    (env : Env) (iface : Text) (f : FireAndForget) (res : Response) (w : Web)
    → (obey_limit env iface f res w).interface_index ≡ w.interface_index
unfolding obey_limit heed_limit wait_out note_limit act
obey_limit-index env iface f res w = ground arith

after_post-index :
    (env : Env) (iface : Text) (f : FireAndForget) (reply : Reply) (w : Web)
    → (after_post env iface f reply w).1.interface_index ≡ w.interface_index
unfolding after_post counted
after_post-index env iface f no_result w = refl
after_post-index env iface f (result res) w =
    obey_limit-index env iface f res (forget_webhook env f res w) ∙ forget_webhook-index env f res w
after_post-index env iface f thrown w = refl

after_get-index :
    (iface : Text) (reply : Reply) (w : Web)
    → (after_get iface reply w).1.interface_index ≡ w.interface_index
unfolding after_get counted
after_get-index iface no_result w = refl
after_get-index iface (result res) w = refl
after_get-index iface thrown w = refl

request_on-index :
    (env : Env) (iface : Text) (f : FireAndForget) (w : Web)
    → (request_on env iface f w).1.interface_index ≡ w.interface_index
unfolding request_on act
request_on-index env iface f w =
    let held = hold_back env.now f.channel_id w in
    let key = f.channel_id == 0 in
    ground (
      arith,
      hold_back-index env.now f.channel_id w,
      after_get-index iface env.reply (act (get f.host f.path iface key) held),
      after_post-index env iface f env.reply (act (post f.host f.path f.body iface key) held),
    )

past_the_end {ℓ} : {A : Type ℓ} (xs : List A) (i : ℕ) → length xs ≤ i → get_elem? xs i ≡ none
past_the_end [] i h = refl
past_the_end (x ∷ xs) zero h = absurd (omega arith)
past_the_end (x ∷ xs) (suc i) h = past_the_end xs i (omega arith)

web_request-at :
    (env : Env) (f : FireAndForget) (w : Web) (iface : Text)
    → get_elem? env.interfaces w.interface_index ≡ some iface
    → web_request env f w
      ≡ some (
          request_on env iface f
            (record w { interface_index = (getinterface env.interfaces w.interface_index).1 }))
unfolding web_request getinterface request_on
web_request-at env f w iface e = rw (e, web_request)

web_request-past :
    (env : Env) (f : FireAndForget) (w : Web)
    → get_elem? env.interfaces w.interface_index ≡ none
    → web_request env f w ≡ none
unfolding web_request getinterface request_on
web_request-past env f w e = rw (e, web_request)

-- A request reads past the end of the list of interfaces exactly when interface_index is not below
-- the number of the interfaces that the machine has now, as when one of them has gone down since.
-- Otherwise interface_index moves on to the next one, and from the last to the first.
web_request-interface :
    (env : Env) (f : FireAndForget) (w : Web)
    → length env.interfaces < 4294967296
    → ((length env.interfaces ≤ w.interface_index) × (web_request env f w ≡ none))
      ⊎ ((text : Text) × (u : Web) × (web_request env f w ≡ some (text, u))
          × (w.interface_index < length env.interfaces)
          × (u.interface_index ≡ (
              if w.interface_index + 1 == length env.interfaces then 0 else w.interface_index + 1)))
unfolding getinterface
web_request-interface env f w few =
    let n = length env.interfaces in
    let i = w.interface_index in
    elim (Bool-cases (ltb i n)) [
      | inl in_range ↦
          let (iface, found) = get_elem?_in_range env.interfaces i (ground arith) in
          let v = record w { interface_index = (getinterface env.interfaces i).1 } in
          let ran = request_on env iface f v in
          inr (
            ran.0,
            ran.1,
            web_request-at env f w iface found,
            ground arith,
            request_on-index env iface f v ∙ ground arith,
          )
      | inr past ↦
          let missing = past_the_end env.interfaces i (ground arith) in
          inl (ground arith, web_request-past env f w missing)
    ]
