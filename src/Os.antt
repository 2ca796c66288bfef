-- ===== src/Os.antt =====
-- src/os.h, src/os_posix.c: the platform floor, where every function is the system call that it is
-- named after. The calls are the kernel's, so they are parameters: `File` is whatever the kernel
-- keeps behind the descriptor, with `byte_at` and `size` its contents as a reader would find them.
-- `IsPosix` states what the code relies on of pread(2), pwrite(2), ftruncate(2), fstat(2) and of
-- fallocate(2) with FALLOC_FL_ZERO_RANGE | FALLOC_FL_KEEP_SIZE. Interrupted calls are counted by
-- `patience`, which no call raises: a call is not interrupted for ever.
use libspill.Base.{ℕ, ◌+◌, ◌-◌, ◌≤◌, ◌<◌, ◌≡◌, false, ltb, List, length, get_or, if◌then◌else◌}
use libspill.Alloc.Shape.{in_range}

-- A call of `ls_os_pwrite`: the bytes that were moved, or -1 with an errno.
pub data Moved : Type 0 where
  moved : ℕ → Moved
  failed : ℕ → Moved

-- A call of `ls_os_pread`: the bytes that were read, or -1 with an errno.
pub data Got : Type 0 where
  got : List ℕ → Got
  failed : ℕ → Got

-- A call that returns 0, or -1 with an errno.
pub data Done : Type 0 where
  success : Done
  failed : ℕ → Done

abbrev pub eintr : ℕ
eintr = 4

abbrev pub eio : ℕ
eio = 5

abbrev pub enospc : ℕ
enospc = 28

pub record Os : Type 1 where
  pub File : Type 0
  pub byte_at : File → ℕ → ℕ
  pub size : File → ℕ
  pub patience : File → ℕ
  pub pwrite : File → List ℕ → ℕ → File × Moved
  pub pread : File → ℕ → ℕ → File × Got
  pub ftruncate : File → ℕ → File × Done
  pub fstat : File → File × Done
  pub zero_range : File → ℕ → ℕ → File × Done

-- the bytes `bs` laid over `old` from `off` on
abbrev pub overlay : List ℕ → ℕ → (ℕ → ℕ) → ℕ → ℕ
overlay bs off old x = if in_range off (length bs) x then get_or bs (x - off) 0 else old x

pub record IsPosix (os : Os) : Type 0 where
  -- A transfer moves a prefix of what was asked for, in place, and nothing else.
  pub pwrite_moved :
      (f f' : os.File) (bs : List ℕ) (off k : ℕ)
      → os.pwrite f bs off ≡ (f', moved k)
      → (k ≤ length bs)
        × ((x : ℕ)
            → os.byte_at f' x
              ≡ (if in_range off k x then get_or bs (x - off) 0 else os.byte_at f x))
        × (os.patience f' ≤ os.patience f)
  pub pwrite_failed :
      (f f' : os.File) (bs : List ℕ) (off e : ℕ)
      → os.pwrite f bs off ≡ (f', Moved.failed e)
      → ((x : ℕ) → os.byte_at f' x ≡ os.byte_at f x)
        × (os.patience f' ≤ os.patience f)
        × (e ≡ eintr → os.patience f' < os.patience f)
  -- A transfer extends the file as far as it reaches.
  pub pwrite_size :
      (f f' : os.File) (bs : List ℕ) (off k : ℕ)
      → os.pwrite f bs off ≡ (f', moved k)
      → (os.size f ≤ os.size f') × (0 < k → off + k ≤ os.size f')
  pub pwrite_failed_size :
      (f f' : os.File) (bs : List ℕ) (off e : ℕ)
      → os.pwrite f bs off ≡ (f', Moved.failed e)
      → os.size f' ≡ os.size f
  pub pread_got :
      (f f' : os.File) (n off : ℕ) (bs : List ℕ)
      → os.pread f n off ≡ (f', got bs)
      → (length bs ≤ n)
        × ((i : ℕ) → i < length bs → get_or bs i 0 ≡ os.byte_at f (off + i))
        × ((x : ℕ) → os.byte_at f' x ≡ os.byte_at f x)
        × (os.patience f' ≤ os.patience f)
  pub pread_failed :
      (f f' : os.File) (n off e : ℕ)
      → os.pread f n off ≡ (f', Got.failed e)
      → ((x : ℕ) → os.byte_at f' x ≡ os.byte_at f x)
        × (os.patience f' ≤ os.patience f)
        × (e ≡ eintr → os.patience f' < os.patience f)
  -- Past its end a file holds nothing, and is read as zeros once it is extended.
  pub past_end : (f : os.File) (x : ℕ) → os.size f ≤ x → os.byte_at f x ≡ 0
  pub ftruncate_success :
      (f f' : os.File) (n : ℕ)
      → os.ftruncate f n ≡ (f', success)
      → (os.size f' ≡ n) × ((x : ℕ) → os.byte_at f' x ≡ (if ltb x n then os.byte_at f x else 0))
  pub ftruncate_failed :
      (f f' : os.File) (n e : ℕ)
      → os.ftruncate f n ≡ (f', Done.failed e)
      → (os.size f' ≡ os.size f) × ((x : ℕ) → os.byte_at f' x ≡ os.byte_at f x)
  pub fstat_same :
      (f : os.File)
      → ((x : ℕ) → os.byte_at (os.fstat f).0 x ≡ os.byte_at f x)
        × (os.size (os.fstat f).0 ≡ os.size f)
  -- A range inside the file is zeroed and nothing else; a refusal may leave the range half done.
  pub zero_range_success :
      (f f' : os.File) (off len : ℕ)
      → off + len ≤ os.size f
      → os.zero_range f off len ≡ (f', success)
      → (x : ℕ) → os.byte_at f' x ≡ (if in_range off len x then 0 else os.byte_at f x)
  pub zero_range_size :
      (f f' : os.File) (off len : ℕ) (r : Done)
      → os.zero_range f off len ≡ (f', r)
      → os.size f' ≡ os.size f
  pub zero_range_outside :
      (f f' : os.File) (off len : ℕ) (r : Done)
      → os.zero_range f off len ≡ (f', r)
      → (x : ℕ) → in_range off len x ≡ false
      → os.byte_at f' x ≡ os.byte_at f x
