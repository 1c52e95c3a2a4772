-- ===== src/Core/DataType.antt =====
-- Runtime/include/core/dataType.hpp and Runtime/include/core/device.hpp.
use vision_runtime.Prelude.{ℕ, Bool, true, false, ◌&&◌, ◌<◌, ◌≤◌, ◌≡◌, ◌↔◌, arith, ◌==◌}
use vision_runtime.Prelude.Int.{ℤ, pos, negsuc, eqb_ℤ, eqb_ℤ_iff}

pub data DataType : Type 0 where
  uint8 int8 uint16 int16 int32 int64 float16 float32 float64 bool : DataType

abbrev pub data_type_size : DataType → ℕ
data_type_size uint8 = 1
data_type_size int8 = 1
data_type_size bool = 1
data_type_size uint16 = 2
data_type_size int16 = 2
data_type_size float16 = 2
data_type_size int32 = 4
data_type_size float32 = 4
data_type_size int64 = 8
data_type_size float64 = 8

-- The value of an enumerator.
abbrev pub data_type_value : DataType → ℕ
data_type_value uint8 = 0
data_type_value int8 = 1
data_type_value uint16 = 2
data_type_value int16 = 3
data_type_value int32 = 4
data_type_value int64 = 5
data_type_value float16 = 6
data_type_value float32 = 7
data_type_value float64 = 8
data_type_value bool = 9

abbrev pub data_type_eq : DataType → DataType → Bool
data_type_eq a b = data_type_value a == data_type_value b

pub data_type_size_pos : (t : DataType) → 0 < data_type_size t
data_type_size_pos t = ground arith

pub data_type_size-le : (t : DataType) → data_type_size t ≤ 8
data_type_size-le t = ground arith

pub data DeviceType : Type 0 where
  cpu cuda : DeviceType

pub record Device : Type 0 where
  pub type : DeviceType
  pub index : ℤ

abbrev pub cpu_device : Device
cpu_device = record { type = cpu; index = pos 0 }

abbrev pub cuda_device : ℤ → Device
cuda_device i = record { type = cuda; index = i }

abbrev pub is_nonnegative : ℤ → Bool
is_nonnegative (pos n) = true
is_nonnegative (negsuc n) = false

abbrev pub device_is_valid : Device → Bool
device_is_valid d = is_nonnegative d.index

abbrev pub eqb_type : DeviceType → DeviceType → Bool
eqb_type cpu cpu = true
eqb_type cuda cuda = true
eqb_type cpu cuda = false
eqb_type cuda cpu = false

-- `Device::operator==`.
abbrev pub device_eq : Device → Device → Bool
device_eq a b = eqb_type a.type b.type && eqb_ℤ a.index b.index

pub device_eq_iff : (a b : Device) → (device_eq a b ≡ true) ↔ (a ≡ b)
device_eq_iff a b = ground (arith, eqb_ℤ_iff a.index b.index)
