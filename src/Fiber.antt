-- ===== src/Fiber.antt =====
-- src/runtime.rs: the fibers and the kinds of effects. src/host.rs: the values that cross to the
-- host.
use kryhtajs.Prelude.{ℕ, Bool, List, Text, JsError}
use kryhtajs.Value.{JsValue, StrId, EnvId, ContId}
use kryhtajs.Cekh.State.{Control}

abbrev pub FiberId : Type 0
FiberId = ℕ

mutual
  pub data HostValue : Type 0 where
    undefined null : HostValue
    bool : Bool → HostValue
    int : ℕ → HostValue
    float : ℕ → HostValue
    str : Text → HostValue
    array : HostValues → HostValue
    object : HostFields → HostValue

  pub data HostValues : Type 0 where
    no_values : HostValues
    a_value : HostValue → HostValues → HostValues

  pub data HostFields : Type 0 where
    no_fields : HostFields
    a_field : Text → HostValue → HostFields → HostFields

pub data FiberStatus : Type 0 where
  ready running : FiberStatus
  blocked : StrId → List JsValue → FiberStatus
  blocked_on_host : StrId → HostValues → FiberStatus
  completed : JsValue → FiberStatus
  failed : JsError → FiberStatus

pub data BuiltinEffect : Type 0 where
  print fork join gc snapshot : BuiltinEffect

pub data EffectKind : Type 0 where
  builtin : BuiltinEffect → EffectKind
  host : EffectKind

pub record Fiber : Type 0 where
  pub id : FiberId
  pub control : Control
  pub cont : ContId
  pub env : EnvId
  pub status : FiberStatus
  pub meter : ℕ
