-- ===== src/Framing.antt =====
-- How src/recvpool.c and src/server.c find the packets in a stream of bytes: by the size in front
-- of each.
pub mod Frames
use sasd_protocols.Prelude.{ℕ, List, Option, none, some, ℤ}
use sasd_protocols.Buffer.Types.{Handle, live, freed, undefined, Buffer, Allocator}
use sasd_protocols.Buffer.Push.{buffer_from_data}
use sasd_protocols.Buffer.Pop.{Result, got, failed, undefined, pop_int16}

-- What a loop does on some fuel: it ends, it is still running when the fuel is used up, or its
-- behaviour is undefined.
pub data Run {ℓ} (A : Type ℓ) : Type ℓ where
  ended : A → Run A
  running : A → Run A
  fault : Run A

-- The value that was read. On a failure the variable is not initialised.
unfoldable pub result_of : {A : Type 0} → Result A → Option A
result_of (got a b) = some a
result_of failed = none
result_of undefined = none

unfoldable pub read_from : Handle → Option ℤ
read_from (live b) = result_of (pop_int16 b)
read_from freed = none
read_from undefined = none

-- `size_reader = buffer_from_data(data, size); buffer_pop_int16(size_reader, &packet_size);`
unfoldable pub read_size : Allocator → List ℕ → Option ℤ
read_size heap xs = read_from (buffer_from_data heap xs)
