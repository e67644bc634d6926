-- ===== src/Alloc.antt =====
-- crates/intid-alloactor/src/lib.rs: allocators of integer ids.
pub mod Unique
pub mod Reusing
pub mod Atomic
use idmap_rs.Common.{◌++◌}
use idmap_rs.Intid.Uint.Text.{Text, codes}
use idmap_rs.Run.{Run, ok, panic, ids_exhausted}

-- `Result<T, IdExhaustedError<T>>`; the error carries nothing
pub data AllocResult (T : Type 0) : Type 0 where
  allocated : T → AllocResult T
  exhausted : AllocResult T

-- `Display` of the error, and the message of `panic`; the name of the type is the compiler's
abbrev pub exhausted_message : Text → Text
exhausted_message type_name = codes "Ran out of ids for " ++ type_name

-- `match self.try_alloc() { Ok(id) => id, Err(e) => e.panic() }`
abbrev pub or_exhausted : {S T : Type 0} → AllocResult T × S → Run (T × S)
or_exhausted (allocated id, s) = ok (id, s)
or_exhausted (exhausted, s) = panic ids_exhausted
