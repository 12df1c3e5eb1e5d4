-- ===== src/Process/Serving.antt =====
-- What holds of a server process at any time.
use ida_mcp.Prelude.{
  ℕ, ◌≡◌, refl, inl, inr, Bool, true, false, Option, none, some, Bool-cases, nat_eq, arith,
  if◌then◌else◌, ◌==◌,
}
use ida_mcp.Prelude.Dict.{lookup, insert, lookup-insert, lookup-erase, lookup-erase_self}
use ida_mcp.Text.{Text, is_empty, strip}
use ida_mcp.Instances.{Directory, Info, register_instance, unregister_instance}
use ida_mcp.Process.{
  Env, System, Process, auth_disabled, init_auth_token, serve, died, stop, set_cap, set_token,
  info_of, announce, start_server, stop_server, is_own, close_instance,
}

-- `secrets.token_urlsafe(24)` draws a text that is not empty.
module _ (env : Env) (drawn : is_empty env.fresh ≡ false) where
  -- What can happen to a process: the plugin starts it only while it does not run.
  pub data Event : Process → Process → Type 0 where
    started :
        {s : Process} (sys : System) (host : Text) (port : ℕ)
        → s.running ≡ false
        → Event s (start_server env sys host port s).1
    stopped : {s : Process} (removes : Bool) (port : ℕ) → Event s (stop_server removes port s)
    instance_closed :
        {s : Process} (removes : Bool) (port : ℕ) → Event s (close_instance removes port s).1
    thread_died : {s : Process} → Event s (died s)

  pub data Reached (first : Process) : Process → Type 0 where
    at_first : Reached first first
    after : {s t : Process} → Reached first s → Event s t → Reached first t

  -- A server asks for a token where it has one that is not empty.
  abbrev pub Asks : Option Text → Type 0
  Asks none = ⊥
  Asks (some t) = is_empty t ≡ false

  -- A server that runs listens at the port that the process calls its own, and asks for a token
  -- unless IDA_MCP_NO_AUTH says not to.
  pub record IsServing (s : Process) : Type 0 where
    pub listens :
        s.running ≡ true
        → (host : Text) × (port : ℕ) × (s.http_server ≡ some (host, port))
          × (s.own_port ≡ some port)
    pub open_rule : s.running ≡ true → auth_disabled env ≡ true → s.auth_token ≡ none
    pub token_rule : s.running ≡ true → auth_disabled env ≡ false → Asks s.auth_token

  token-open : auth_disabled env ≡ true → init_auth_token env ≡ none
  unfolding init_auth_token
  token-open e = rw e refl

  token-Asks : auth_disabled env ≡ false → Asks (init_auth_token env)
  unfolding init_auth_token
  token-Asks e = elim (Bool-cases (is_empty (strip env.token))) [
    | inl given ↦ rw (e, given, init_auth_token) drawn
    | inr given ↦ rw (e, given, init_auth_token) given
  ]

  idle-IsServing : (s : Process) → s.running ≡ false → IsServing s
  idle-IsServing s e = record {
    listens = λ f. absurd (cc (e, f));
    open_rule = λ f. absurd (cc (e, f));
    token_rule = λ f. absurd (cc (e, f));
  }

  start-IsServing :
      (sys : System) (host : Text) (port : ℕ) (s : Process)
      → s.running ≡ false
      → IsServing (start_server env sys host port s).1
  unfolding start_server serve set_cap set_token announce
  start-IsServing sys host port s idle = elim (Bool-cases sys.binds) [
    | inl e ↦
        rw (idle, e, start_server)
          (record {
            listens = λ _. (host, port, refl, refl);
            open_rule = λ _. token-open;
            token_rule = λ _. token-Asks;
          })
    | inr e ↦ rw (idle, e, start_server) (idle-IsServing _ refl)
  ]

  stop-idle :
      (removes : Bool) (port : ℕ) (s : Process) → (stop_server removes port s).running ≡ false
  unfolding stop_server stop
  stop-idle removes port s = ground arith

  close-IsServing :
      (removes : Bool) (port : ℕ) (s : Process)
      → IsServing s
      → IsServing (close_instance removes port s).1
  unfolding close_instance
  close-IsServing removes port s h = elim (Bool-cases (is_own port s.own_port)) [
    | inl e ↦ rw (e, close_instance) (idle-IsServing _ (stop-idle removes port s))
    | inr e ↦ rw (e, close_instance) h
  ]

  -- Where the random token is not empty, through any starts of an idle process, stops, closes and deaths
  -- of the serving thread, a server that runs listens at its own port; it has no token where
  -- IDA_MCP_NO_AUTH disables it, and a token that is not empty where it does not.
  pub Reached-IsServing :
      (first s : Process) → first.running ≡ false → Reached first s → IsServing s
  unfolding died
  Reached-IsServing first s idle at_first = idle-IsServing first idle
  Reached-IsServing first s idle (after r (started sys host port e)) =
      start-IsServing sys host port _ e
  Reached-IsServing first s idle (after r (stopped removes port)) =
      idle-IsServing _ (stop-idle removes port _)
  Reached-IsServing first s idle (after r (instance_closed removes port)) =
      close-IsServing removes port _ (Reached-IsServing first _ idle r)
  Reached-IsServing first s idle (after r thread_died) = idle-IsServing _ refl

-- What a start brought, the stop of the same port takes back.
pub record IsDown (port : ℕ) (s t : Process) : Type 0 where
  pub idle : t.running ≡ false
  pub socket : t.http_server ≡ none
  pub port_free : t.own_port ≡ none
  pub forgotten : lookup port t.directory ≡ none
  pub others : (p : ℕ) → p == port ≡ false → lookup p t.directory ≡ lookup p s.directory

-- Removing the file of a port that may just have been registered.
module _ (registers : Bool) (i : Info) (d : Directory) where
  abbrev left : Directory
  left = unregister_instance i.port (if registers then register_instance i d else d)

  left-none : lookup i.port left ≡ none
  unfolding unregister_instance
  left-none = lookup-erase_self i.port _

  left-others : (p : ℕ) → p == i.port ≡ false → lookup p left ≡ lookup p d
  unfolding register_instance unregister_instance
  left-others p e = elim (Bool-cases registers) [
    | inl r ↦ rw r (
        ground (
          arith,
          lookup-erase p i.port (insert i.port (some i) d),
          lookup-insert p i.port (some i) d,
        ))
    | inr r ↦ rw r (ground (arith, lookup-erase p i.port d))
  ]

-- Where an idle process starts a server at a port that can be bound, stopping it leaves no socket
-- and no port, and the directory of instances is as before but for this port, which it lacks.
pub stop-start :
    (env : Env) (sys : System) (host : Text) (port : ℕ) (s : Process)
    → s.running ≡ false
    → sys.binds ≡ true
    → IsDown port s (stop_server true port (start_server env sys host port s).1)
unfolding start_server serve set_cap set_token announce stop_server stop register_instance
    unregister_instance
stop-start env sys host port s idle binds =
    simp (idle, binds)
      (record {
        idle = refl;
        socket = refl;
        port_free = refl;
        forgotten = left-none sys.registers (info_of env sys host port) s.directory;
        others = left-others sys.registers (info_of env sys host port) s.directory;
      })
