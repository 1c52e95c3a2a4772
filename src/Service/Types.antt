-- ===== src/Service/Types.antt =====
-- Service/include/endpoints/endpointTypes.hpp and the records of
-- Service/include/endpoints/endpointRegistry.hpp.
use vision_runtime.Prelude.{ℕ, String, Bool, true, false, Option, List}
use vision_runtime.Prelude.Int.{ℤ}
use vision_runtime.Core.Status.{Result}
use vision_runtime.Vision.Frame.{Frame}

-- What the service does not implement: the state that the endpoints' handlers read and write, the
-- `double` arithmetic of the machine, and the callbacks of subscribers.
pub record Host : Type 1 where
  pub World : Type 0
  pub Number : Type 0
  pub less : Number → Number → Bool
  pub from_integer : ℤ → Number
  pub StateCallback : Type 0
  pub StreamCallback : Type 0

pub data EndpointKind : Type 0 where
  parameter command state stream : EndpointKind

pub data ParameterType : Type 0 where
  decimal integer flag text : ParameterType

pub data AccessLevel : Type 0 where
  operator engineer administrator : AccessLevel

unfoldable pub endpoint_kind_name : EndpointKind → String
endpoint_kind_name parameter = "parameter"
endpoint_kind_name command = "command"
endpoint_kind_name state = "state"
endpoint_kind_name stream = "stream"

unfoldable pub parameter_type_name : ParameterType → String
parameter_type_name decimal = "decimal"
parameter_type_name integer = "integer"
parameter_type_name flag = "flag"
parameter_type_name text = "text"

unfoldable pub access_level_name : AccessLevel → String
access_level_name operator = "operator"
access_level_name engineer = "engineer"
access_level_name administrator = "administrator"

abbrev pub parameter_type_eq : ParameterType → ParameterType → Bool
parameter_type_eq decimal decimal = true
parameter_type_eq integer integer = true
parameter_type_eq flag flag = true
parameter_type_eq text text = true
parameter_type_eq _ _ = false

pub data ParameterValue (h : Host) : Type 0 where
  number : h.Number → ParameterValue h
  int64 : ℤ → ParameterValue h
  boolean : Bool → ParameterValue h
  string : String → ParameterValue h

unfoldable pub parameter_type_of : {h : Host} → ParameterValue h → ParameterType
parameter_type_of (number n) = decimal
parameter_type_of (int64 i) = integer
parameter_type_of (boolean b) = flag
parameter_type_of (string s) = text

pub record ParameterDescriptor (h : Host) : Type 0 where
  pub name : String
  pub description : String
  pub type : ParameterType
  pub writable : Bool
  pub access_level : AccessLevel
  pub minimum : Option h.Number
  pub maximum : Option h.Number

-- A `std::function` is none when it is empty; a call of it may change the world.
abbrev pub Handler : (h : Host) → Type 0 → Type 0
Handler h A = h.World → A × h.World

pub record ParameterEndpoint (h : Host) : Type 0 where
  pub descriptor : ParameterDescriptor h
  pub read : Option (Handler h (Result (ParameterValue h)))
  pub write : Option (ParameterValue h → Handler h (Result (Unit {0})))

pub record CommandEndpoint (h : Host) : Type 0 where
  pub name : String
  pub description : String
  pub access_level : AccessLevel
  pub invoke : Option (Handler h (Result (Unit {0})))

pub record StateSnapshot : Type 0 where
  pub version : ℕ
  pub payload : String

-- A snapshot provider returns a snapshot or throws an exception with this text.
pub data Provided : Type 0 where
  provided : StateSnapshot → Provided
  threw : String → Provided

pub record StateEndpoint (h : Host) : Type 0 where
  pub name : String
  pub description : String
  pub access_level : AccessLevel
  pub current : Option (Handler h Provided)

pub record StreamEndpoint : Type 0 where
  pub name : String
  pub description : String
  pub access_level : AccessLevel
  pub source_id : ℕ

pub record StateSlot (h : Host) : Type 0 where
  pub endpoint : StateEndpoint h
  pub latest : StateSnapshot
  pub subscribers : List (ℕ × h.StateCallback)

pub record StreamSlot (h : Host) : Type 0 where
  pub endpoint : StreamEndpoint
  pub subscribers : List (ℕ × h.StreamCallback)
  pub pending : Option Frame
  pub pending_source_id : ℕ
  pub dispatch_scheduled : Bool
  pub dropped : ℕ
