-- ===== src/Jsonrpc/Keeps.antt =====
-- Properties of the state that the registered methods keep: dispatch keeps them too.
use ida_mcp.Prelude.{◌≡◌, refl, ◌⊎◌, inl, inr, some, Option-cases, Bool-cases, text_eq}
use ida_mcp.Prelude.Dict.{lookup}
use ida_mcp.Text.{Text, lit}
use ida_mcp.Json.{Value, null, str, obj, Fields, get, or_null}
use ida_mcp.State.{State}
use ida_mcp.Jsonrpc.{
  Env, Registry, Method, Args, Request, raw, parsed, call, run, dispatch_method, dispatch_value,
  dispatch, args_of, is_version,
}

-- Every registered method keeps `P`, whether it returns or raises.
abbrev pub MethodsKeep {ℓ} : (State → Type ℓ) → Registry → Type ℓ
MethodsKeep P r =
    (name : Text) (f : Method)
    → lookup name r.methods ≡ some f
    → (a : Args) (st : State) → P st
    → P (f a st).1

module _ {ℓ} (env : Env) (r : Registry) (P : State → Type ℓ)
    (relabel : (st : State) (id : Value) → P st → P (record st { request_id = id }))
    (keep : MethodsKeep P r) where
  call-keeps : (m : Text) (params : Value) (st : State) → P st → P (call env r m params st).1
  unfolding call
  call-keeps m params st h = elim (Option-cases (lookup m r.methods)) [
    | inl e ↦ rw (e, call) h
    | inr (f, e) ↦ rw (e, call) (keep m f e (args_of params) st h)
  ]

  run-keeps : (m : Text) (fs : Fields) (st : State) → P st → P (run env r m fs st).1
  unfolding run
  run-keeps m fs st h = relabel _ null (call-keeps m _ _ (relabel st _ h))

  dispatch_method-keeps :
      (fs : Fields) (m : Value) (st : State) → P st → P (dispatch_method env r fs m st).1
  unfolding dispatch_method
  dispatch_method-keeps fs (str m) st h = run-keeps m fs st h
  dispatch_method-keeps fs null st h = h
  dispatch_method-keeps fs _ st h = h

  pub dispatch_value-keeps : (v : Value) (st : State) → P st → P (dispatch_value env r v st).1
  unfolding dispatch_value
  dispatch_value-keeps (obj fs) st h = elim (Bool-cases (is_version env (get (lit "jsonrpc") fs))) [
    | inl e ↦ rw e (dispatch_method-keeps fs (or_null (get (lit "method") fs)) st h)
    | inr e ↦ rw e h
  ]
  dispatch_value-keeps null st h = h
  dispatch_value-keeps _ st h = h

  pub dispatch-keeps : (q : Request) (st : State) → P st → P (dispatch env r q st).1
  unfolding dispatch
  dispatch-keeps (parsed v) st h = dispatch_value-keeps v st h
  dispatch-keeps (raw t) st h = raw_keeps (env.loads t) refl
    where
      raw_keeps : (l : Value ⊎ Text) → env.loads t ≡ l → P (dispatch env r (raw t) st).1
      raw_keeps (inl v) e = rw (e, dispatch) (dispatch_value-keeps v st h)
      raw_keeps (inr reason) e = rw (e, dispatch) h
