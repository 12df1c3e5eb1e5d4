-- ===== src/Jsonrpc/Replies.antt =====
-- Which reply a request gets.
use ida_mcp.Prelude.{
  ◌≡◌, refl, ◌⊎◌, inl, inr, Bool, true, false, not, Option, none, some, arith, Option-cases,
  Bool-cases, text_eq,
}
use ida_mcp.Prelude.Dict.{lookup}
use ida_mcp.Text.{Text, lit}
use ida_mcp.Json.{Value, null, str, obj, Fields, get, or_null}
use ida_mcp.Exec.{Raised, rpc_error, cancelled, interrupt, exit, Result, ok, err, is_exception}
use ida_mcp.State.{State}
use ida_mcp.Jsonrpc.{
  Env, Registry, Method, Args, Request, raw, parsed, Response, result, error, call, run, respond,
  handle, dispatch_method, dispatch_value, dispatch, args_of, is_version,
}

-- What escapes is no BaseException.
abbrev pub IsContained {ℓ} : {A : Type ℓ} → Result A → Type 0
IsContained (ok a) = Unit
IsContained (err e) = is_exception e ≡ true

-- No registered method raises a SystemExit, a KeyboardInterrupt or a ToolInterrupt.
abbrev pub MethodsContained : Registry → Type 0
MethodsContained r =
    (name : Text) (f : Method)
    → lookup name r.methods ≡ some f
    → (a : Args) (st : State) → IsContained (f a st).0

abbrev pub id_of : Response → Value
id_of (result v id) = id
id_of (error code message detail id) = id

abbrev pub Returns {ℓ} : {A : Type ℓ} → Result A → Type 0
Returns (ok a) = Unit
Returns (err e) = ⊥

module _ (env : Env) (r : Registry) where
  handle-Returns :
      (id : Value) (e : Raised)
      → is_exception e ≡ true
      → (x : Response) × (handle env r id e ≡ ok x) × (id_of x ≡ id)
  unfolding handle
  handle-Returns id (rpc_error code message detail) h = (error code message detail id, refl, refl)
  handle-Returns id (cancelled t) h = (_, refl, refl)
  handle-Returns id (interrupt reason t) h = absurd (cc h)
  handle-Returns id (exit c t) h = absurd (cc h)
  handle-Returns id e h = (_, refl, refl)

  respond-Returns :
      (n : Bool) (id : Value) (o : Result Value) → IsContained o → Returns (respond env r n id o)
  unfolding respond
  respond-Returns n id (ok v) h = tt
  respond-Returns n id (err e) h = let (x, p, _) = handle-Returns id e h in rw (p, respond) tt

  respond-id :
      (n : Bool) (id : Value) (o : Result Value) (x : Response)
      → respond env r n id o ≡ ok (some x)
      → (n ≡ false) × (id_of x ≡ id)
  unfolding respond handle
  respond-id n id (ok v) x h = ground arith
  respond-id n id (err e) x h = ground arith

  call-IsContained :
      MethodsContained r
      → (m : Text) (params : Value) (st : State) → IsContained (call env r m params st).0
  unfolding call
  call-IsContained contained m params st = elim (Option-cases (lookup m r.methods)) [
    | inl e ↦ rw (e, call) refl
    | inr (f, e) ↦ rw (e, call) (contained m f e (args_of params) st)
  ]

  dispatch_method-Returns :
      MethodsContained r
      → (fs : Fields) (m : Value) (st : State) → Returns (dispatch_method env r fs m st).0
  unfolding dispatch_method run
  dispatch_method-Returns contained fs (str m) st =
      respond-Returns _ _ _ (call-IsContained contained m _ _)
  dispatch_method-Returns contained fs null st = tt
  dispatch_method-Returns contained fs _ st = tt

  dispatch_value-Returns :
      MethodsContained r → (v : Value) (st : State) → Returns (dispatch_value env r v st).0
  unfolding dispatch_value
  dispatch_value-Returns contained (obj fs) st =
      elim (Bool-cases (is_version env (get (lit "jsonrpc") fs))) [
        | inl e ↦ rw e (dispatch_method-Returns contained fs (or_null (get (lit "method") fs)) st)
        | inr e ↦ rw e tt
      ]
  dispatch_value-Returns contained null st = tt
  dispatch_value-Returns contained _ st = tt

  -- If no method raises a BaseException that is no Exception, then dispatch raises nothing: every
  -- request, malformed ones included, is answered or taken as a notification.
  pub dispatch-Returns :
      MethodsContained r → (q : Request) (st : State) → Returns (dispatch env r q st).0
  unfolding dispatch
  dispatch-Returns contained (parsed v) st = dispatch_value-Returns contained v st
  dispatch-Returns contained (raw t) st = of_loaded (env.loads t) refl
    where
      of_loaded : (l : Value ⊎ Text) → env.loads t ≡ l → Returns (dispatch env r (raw t) st).0
      of_loaded (inl v) e = rw (e, dispatch) (dispatch_value-Returns contained v st)
      of_loaded (inr reason) e = rw (e, dispatch) tt

  -- The reply to a well-formed request carries the id of the request, and a request without an id
  -- gets no reply.
  pub reply-id :
      (fs : Fields) (m : Text) (st : State) (x : Response)
      → is_version env (get (lit "jsonrpc") fs) ≡ true
      → get (lit "method") fs ≡ some (str m)
      → (dispatch env r (parsed (obj fs)) st).0 ≡ ok (some x)
      → get (lit "id") fs ≡ some (id_of x)
  unfolding dispatch dispatch_value dispatch_method run
  reply-id fs m st x version method h = id_known (get (lit "id") fs) (
      respond-id _ _ (call env r m (or_null (get (lit "params") fs)) _).0 x
        (rw (version, method) at h))
    where
      id_known :
          (o : Option Value)
          → (not (elim o [ none ↦ false | some _ ↦ true ]) ≡ false) × (id_of x ≡ or_null o)
          → o ≡ some (id_of x)
      id_known none p = absurd (cc p.0)
      id_known (some v) p = cc (p.1)
