-- ===== src/Bird/Process.antt =====
-- pkg/bird/bird.go: the process of bird and its configuration, with the mutex.
use l_3_4_gateway_api_poc.Base.{
  Bool, true, false, Option, none, some, List, [], ◌∷◌, ◌++◌, Text, codes, if◌then◌else◌,
}
use l_3_4_gateway_api_poc.Net.{Addresses}
use l_3_4_gateway_api_poc.Netlink.{Netlink}
use l_3_4_gateway_api_poc.Bird.Template.{default_log_file_size}
use l_3_4_gateway_api_poc.Bird.Gateway.{Gateway}
use l_3_4_gateway_api_poc.Bird.Configuration.{Settings, get_config}
use l_3_4_gateway_api_poc.Bird.Rules.{set_policy_routes}

-- A command ends well, with an error, or with the error that the context was cancelled for.
pub data Ended : Type 0 where
  succeeded failed cancelled : Ended

-- The files and the processes of the host, in the state of its rules.
pub record Host : Type 1 where
  pub netlink : Netlink
  pub addresses : Addresses
  -- Whether `os.Stat` says that the file does not exist.
  pub not_exist : Text → netlink.World → Bool
  -- `os.Create` and `file.WriteString`; `false` stands for an error.
  pub create_file : Text → netlink.World → Bool × netlink.World
  pub write_string : Text → Text → netlink.World → Bool × netlink.World
  pub run_command : Text → List Text → netlink.World → Ended × netlink.World

pub record Bird : Type 0 where
  pub settings : Settings
  pub running : Bool
  -- Whether `mu` is locked.
  pub mu : Bool

unfoldable pub new_bird : Bird
new_bird = record {
  settings = record {
    socket_path = codes "/var/run/bird/bird.ctl";
    config_file = codes "/etc/bird/bird.conf";
    log_enabled = true;
    log_file_size = default_log_file_size;
    log_file = codes "/var/log/bird.log";
    log_file_backup = codes "/var/log/bird.log.backup";
  };
  running = false;
  mu = false;
}

-- What a call returns, if it does not panic.
pub data Returned : Type 0 where
  no_error bird_running create_failed write_failed start_failed : Returned
  configure_failed policy_routes_failed panicked : Returned

abbrev pub is_nil : Returned → Bool
is_nil no_error = true
is_nil _ = false

-- `err != nil && !errors.Is(err, context.Cause(ctx))`
abbrev pub ended_with : Returned → Ended → Returned
ended_with e succeeded = no_error
ended_with e failed = e
ended_with e cancelled = no_error

module _ (h : Host) where
  open h use {netlink, addresses, not_exist, create_file, write_string, run_command}

  unfoldable pub write_config :
      Settings → List Text → List Gateway → netlink.World → Returned × netlink.World
  unfolding get_config
  write_config b vips gateways w =
      let (created, w1) = create_file b.config_file w in
      if created
      then elim (get_config addresses b vips gateways) [
        | none ↦ (panicked, w1)
        | some conf ↦
            let (written, w2) = write_string b.config_file conf w1 in
            (if written then no_error else write_failed, w2)
      ]
      else (create_failed, w1)

  -- `Run` up to the start of the process; `none` waits for the mutex for ever.
  unfoldable pub start_run : Bird → netlink.World → Option ((Returned × Bird) × netlink.World)
  unfolding write_config
  start_run b w =
      let locked = record b { mu = true } in
      let started = record b { mu = false; running = true } in
      let (e, w1) = write_config b.settings [] [] w in
      if b.mu
      then none
      else if b.running
      then some ((bird_running, locked), w)
      else if not_exist b.settings.config_file w
      then (if is_nil e then some ((no_error, started), w1) else some ((e, locked), w1))
      else some ((no_error, started), w)

  -- The rest of `Run`, once it has started: it returns when the process ends.
  unfoldable pub finish_run : Settings → netlink.World → Returned × netlink.World
  finish_run b w =
      let (ended, w1) =
        run_command (codes "bird")
          (codes "-d" ∷ codes "-c" ∷ b.config_file ∷ codes "-s" ∷ b.socket_path ∷ []) w in
      (ended_with start_failed ended, w1)

  unfoldable pub configure_running : Bird → netlink.World → Returned × netlink.World
  configure_running b w =
      let (ended, w1) =
        run_command (codes "birdc")
          (codes "-s"
            ∷ b.settings.socket_path
            ∷ codes "configure"
            ∷ (codes "\"" ++ b.settings.config_file ++ codes "\"")
            ∷ [])
          w in
      if b.running then (ended_with configure_failed ended, w1) else (no_error, w)

  -- What `Configure` does with the mutex locked
  unfoldable pub configure_locked :
      Bird → List Text → List Gateway → netlink.World → Returned × netlink.World
  unfolding write_config configure_running set_policy_routes
  configure_locked b vips gateways w =
      let (written, w1) = write_config b.settings vips gateways w in
      let (configured, w2) = configure_running b w1 in
      let (errors, w3) = set_policy_routes addresses netlink vips w2 in
      if is_nil written
      then (if is_nil configured
          then elim errors [ [] ↦ (no_error, w3) | _ ∷ _ ↦ (policy_routes_failed, w3) ]
          else (configured, w2))
      else (written, w1)

  -- `Configure`, which unlocks the mutex whatever it returns; `none` waits for ever.
  unfoldable pub configure :
      Bird → List Text → List Gateway → netlink.World → Option ((Returned × Bird) × netlink.World)
  unfolding configure_locked
  configure b vips gateways w =
      let (e, w1) = configure_locked b vips gateways w in
      if b.mu then none else some ((e, record b { mu = false }), w1)
