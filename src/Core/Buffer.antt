-- ===== src/Core/Buffer.antt =====
-- Runtime/include/core/tensorBuffer.hpp. A pointer is its address, and 0 is the null pointer; a
-- `shared_ptr` is the number of the allocation that it keeps alive, or none.
use vision_runtime.Prelude.{
  ℕ, ◌+◌, ◌-◌, ◌≤◌, ◌<◌, Bool, true, false, ◌&&◌, ◌||◌, not, ◌≡◌, Option, some, arith, ltb, ◌==◌,
  if◌then◌else◌, is_some, String,
}
use vision_runtime.Core.Status.{Result, success, failure, error, invalid_argument}
use vision_runtime.Core.DataType.{Device, cpu, device_is_valid, eqb_type}

pub data MemoryKind : Type 0 where
  host host_pinned device : MemoryKind

abbrev pub is_device_memory : MemoryKind → Bool
is_device_memory device = true
is_device_memory _ = false

pub record TensorBuffer : Type 0 where
  pub owner : Option ℕ
  pub address : ℕ
  pub capacity : ℕ
  pub dev : Device
  pub memory_kind : MemoryKind
  pub writable : Bool

abbrev pub invalid {ℓ} : {A : Type ℓ} → String → Result A
invalid m = failure (error invalid_argument m)

abbrev pub buffer_empty : TensorBuffer → Bool
buffer_empty b = not (is_some b.owner)

abbrev pub is_host_accessible : TensorBuffer → Bool
is_host_accessible b = not (is_device_memory b.memory_kind)

-- `data() noexcept`, the writable pointer.
abbrev pub writable_address : TensorBuffer → ℕ
writable_address b = if b.writable then b.address else 0

-- `TensorBuffer::share`.
unfoldable pub share_buffer : Option ℕ → ℕ → ℕ → Device → MemoryKind → Bool → Result TensorBuffer
share_buffer owner address capacity dev kind writable =
    if not (is_some owner) || address == 0
    then invalid "buffer owner and data must not be null"
    else if capacity == 0
    then invalid "buffer capacity must be greater than zero"
    else if not (device_is_valid dev)
    then invalid "buffer device is invalid"
    else if not (is_device_memory kind) && not (eqb_type dev.type cpu)
    then invalid "host memory must use a CPU device"
    else success (record {
      owner = owner;
      address = address;
      capacity = capacity;
      dev = dev;
      memory_kind = kind;
      writable = writable;
    })

-- `TensorBuffer::takeOwnership`: the deleter, if there is one, makes allocation `fresh`.
unfoldable pub take_buffer : ℕ → ℕ → Bool → ℕ → Device → MemoryKind → Bool → Result TensorBuffer
unfolding share_buffer
take_buffer address capacity has_deleter fresh dev kind writable =
    if address == 0
    then invalid "buffer data must not be null"
    else if not has_deleter
    then invalid "owned buffer requires a deleter"
    else share_buffer (some fresh) address capacity dev kind writable

-- `TensorBuffer::slice`.
unfoldable pub slice_buffer : TensorBuffer → ℕ → ℕ → Result TensorBuffer
slice_buffer b offset capacity =
    if buffer_empty b
      || capacity == 0
      || ltb b.capacity offset
      || ltb (b.capacity - offset) capacity
    then invalid "buffer slice exceeds its capacity"
    else success (record b { address = b.address + offset; capacity = capacity })

-- What holds of every buffer that `share` and `takeOwnership` make.
pub record IsBuffer (b : TensorBuffer) : Type 0 where
  pub owned : is_some b.owner ≡ true
  pub placed : 0 < b.address
  pub sized : 0 < b.capacity
  pub device_ok : device_is_valid b.dev ≡ true
  pub host_on_cpu : is_device_memory b.memory_kind ≡ false → b.dev.type ≡ cpu

-- A buffer that `share` returns is well formed and has the owner, address and capacity given.
pub share_buffer-IsBuffer :
    (owner : Option ℕ) (address capacity : ℕ) (dev : Device) (kind : MemoryKind) (writable : Bool)
    {b : TensorBuffer}
    → share_buffer owner address capacity dev kind writable ≡ success b
    → IsBuffer b × (b.owner ≡ owner) × (b.address ≡ address) × (b.capacity ≡ capacity)
unfolding share_buffer
share_buffer-IsBuffer owner address capacity dev kind writable h = (
  record {
    owned = ground arith;
    placed = ground arith;
    sized = ground arith;
    device_ok = ground arith;
    host_on_cpu = λ e. ground arith;
  },
  ground arith,
  ground arith,
  ground arith,
)

-- A slice of a well-formed buffer is well formed, keeps the owner alive and lies inside the buffer.
pub slice_buffer-IsBuffer :
    (b : TensorBuffer) (offset capacity : ℕ) {s : TensorBuffer}
    → IsBuffer b
    → slice_buffer b offset capacity ≡ success s
    → IsBuffer s
      × (s.owner ≡ b.owner)
      × (b.address ≤ s.address)
      × (s.address + s.capacity ≤ b.address + b.capacity)
unfolding slice_buffer
slice_buffer-IsBuffer b offset capacity v h = (
  record {
    owned = ground arith;
    placed = ground arith;
    sized = ground arith;
    device_ok = ground arith;
    host_on_cpu = λ e. ground arith;
  },
  ground arith,
  ground arith,
  ground arith,
)
