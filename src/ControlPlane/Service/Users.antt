-- ===== src/ControlPlane/Service/Users.antt =====
-- usecase/users.go: the accounts.
use casper_vpn.Base.{String, ℕ, not, Option, none, some, ◌==◌, is_some, is_zero, if◌then◌else◌}
use casper_vpn.ControlPlane.Contracts.{
  User, UserStatus, valid_user, user_active, not_found, conflict, validation, Result, ok, err,
}
use casper_vpn.ControlPlane.Action.{Action, ◌>>=◌, ◌>>◌, done, fail, reject_if, returns, try}
use casper_vpn.ControlPlane.Store.State.{enqueue_user}
use casper_vpn.ControlPlane.Store.Nodes.{add_user_secret_rotation}
use casper_vpn.ControlPlane.Store.Users.{
  create_user, get_user, update_user, rotate_secrets, get_by_telegram,
}
use casper_vpn.ControlPlane.Service.Environment.{
  Environment, World, in_store, now, draw, notify, change,
}

abbrev default_device_limit : ℕ
default_device_limit = 3

-- `Update`'s patch of the stored user; the secrets, the id and the creation stay.
abbrev pub patched : User → User → User
patched patch u = record u {
  status = patch.status;
  device_limit = patch.device_limit;
  quota_bytes = patch.quota_bytes;
  used_bytes = patch.used_bytes;
  telegram_id = patch.telegram_id;
  email = patch.email;
  subscription_id =
      if is_some patch.subscription_id then patch.subscription_id else u.subscription_id;
}

module _ (env : Environment) where
  open env use {uuid, token, short_id, private_key, revoke_user}

  unfoldable pub create : Option ℕ → Option String → Action (World env) User
  unfolding create_user valid_user
  create telegram email = do
    id ← draw env uuid
    short ← draw env short_id
    vless ← draw env uuid
    hy2 ← draw env token
    key ← draw env private_key
    t ← now env
    let u : User = record {
      id = id;
      telegram_id = telegram;
      email = email;
      status = UserStatus.active;
      reality_short_id = short;
      uuid = vless;
      hysteria2_password = hy2;
      private_key = key;
      subscription_id = none;
      device_limit = default_device_limit;
      quota_bytes = 0;
      used_bytes = 0;
      created_at = t;
      updated_at = t;
    }
    reject_if (not (valid_user u)) validation
    in_store env (create_user u)
    done u

  unfoldable pub get : String → Action (World env) User
  unfolding get_user
  get id = in_store env (get_user id)

  unfoldable pub update : String → User → Action (World env) User
  unfolding get_user update_user valid_user
  update id patch = do
    old ← in_store env (get_user id)
    t ← now env
    let u = record (patched patch old) { updated_at = t }
    reject_if (not (valid_user u)) validation
    in_store env (update_user u)
    if not (user_active u.status) then notify env (revoke_user id) else done tt
    done u

  -- The store's `RotateSecrets`: it draws the password of hysteria2 itself.
  abbrev pub rotate_in_store : String → String → String → String → Action (World env) User
  rotate_in_store id short vless key = do
    in_store env (get_user id)
    hy2 ← draw env token
    in_store env (rotate_secrets id short vless key hy2)

  unfoldable pub rotate : String → String → Action (World env) User
  unfolding get_user rotate_secrets add_user_secret_rotation
  rotate id reason = do
    old ← in_store env (get_user id)
    short ← draw env short_id
    vless ← draw env uuid
    key ← draw env private_key
    updated ← rotate_in_store id short vless key
    rec_id ← draw env uuid
    t ← now env
    in_store env (
        add_user_secret_rotation (record {
          id = rec_id;
          user_id = id;
          old_reality_short_id = old.reality_short_id;
          old_vless_uuid = old.uuid;
          reason = if reason == "" then "rotate-secrets" else reason;
          created_at = t;
        }))
    notify env (revoke_user id)
    change env (enqueue_user id)
    done updated

  -- `Create` lost to a concurrent creation: its account is returned.
  abbrev pub or_winner : ℕ → Result User → Action (World env) User
  or_winner id (err conflict) = in_store env (get_by_telegram id)
  or_winner id r = returns r

  abbrev pub or_create : ℕ → Result User → Action (World env) User
  or_create id (ok u) = done u
  or_create id (err not_found) = try (create (some id) none) >>= or_winner id
  or_create id (err e) = fail e

  unfoldable pub ensure_telegram : ℕ → Action (World env) User
  unfolding get_by_telegram create
  ensure_telegram id =
      if is_zero id
      then fail validation
      else try (in_store env (get_by_telegram id)) >>= or_create id
