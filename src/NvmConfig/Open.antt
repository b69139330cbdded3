-- ===== src/NvmConfig/Open.antt =====
-- The constructor of `nvmconfig_t`, src/nvm/config.cpp, and `escort_is_recovery` of src/Escort.cpp. The
-- calls of the operating system are a parameter.
use escort.Prelude.{
  ℕ, ◌≡◌, refl, subst, sym, ap, ◌∙◌, Bool, true, Option, none, some, List, [], ◌∷◌, ◌++◌, ◌>>=◌,
  Option-cases, inl, inr, ==_iff, arith,
}
use escort.Address.{dram_base, heap_size}
use escort.NvmConfig.{Config, create_area}

-- A path is its bytes. `open_file` is `open`, with null for a negative result, `mmap` maps so many bytes
-- of a descriptor, with null for `MAP_FAILED`, and `words` are those that a mapping shows at addresses.
pub record Os : Type 0 where
  pub open_file : List ℕ → Option ℕ
  pub file_size : List ℕ → ℕ
  pub mmap : (size fd : ℕ) → Option ℕ
  pub words : (fd address : ℕ) → ℕ

-- An area in NVM: its address and its size.
abbrev pub Area : Type 0
Area = ℕ × ℕ

pub record NvmConfig : Type 0 where
  pub config : Config
  pub redolog_area : Area
  pub allocatorlog_area : Area

-- "_redolog" and "_allocatorlog"
abbrev pub redolog_suffix : List ℕ
redolog_suffix = 95 ∷ 114 ∷ 101 ∷ 100 ∷ 111 ∷ 108 ∷ 111 ∷ 103 ∷ []

abbrev pub allocatorlog_suffix : List ℕ
allocatorlog_suffix = 95 ∷ 97 ∷ 108 ∷ 108 ∷ 111 ∷ 99 ∷ 97 ∷ 116 ∷ 111 ∷ 114 ∷ 108 ∷ 111 ∷ 103 ∷ []

-- The descriptor and the area.
abbrev pub open_nvmfile : Os → List ℕ → Option (ℕ × Area)
open_nvmfile os nvm_path = do
  fd ← os.open_file nvm_path
  let size = os.file_size nvm_path
  address ← os.mmap size fd
  some (fd, (address, size))

abbrev pub create_redolog_area : Os → List ℕ → Option Area
create_redolog_area os redolog_path = do
  fd ← os.open_file redolog_path
  let size = os.file_size redolog_path
  address ← os.mmap size fd
  some (address, size)

abbrev pub create_allocatorlog_area : Os → List ℕ → Option Area
create_allocatorlog_area os allocatorlog_path = do
  fd ← os.open_file allocatorlog_path
  let size = os.file_size allocatorlog_path
  address ← os.mmap size fd
  some (address, size)

unfoldable pub nvmconfig : Os → List ℕ → ℕ → Option NvmConfig
nvmconfig os nvm_path heap_size = do
  (fd, (address, size)) ← open_nvmfile os nvm_path
  let config = create_area address size heap_size (os.words fd)
  redolog_area ← create_redolog_area os (nvm_path ++ redolog_suffix)
  allocatorlog_area ← create_allocatorlog_area os (nvm_path ++ allocatorlog_suffix)
  some (record {
    config = config;
    redolog_area = redolog_area;
    allocatorlog_area = allocatorlog_area;
  })

-- `gv::NVM_config` is opened where it is null, by `escort_init` and `escort_is_recovery`.
unfoldable pub open_config : Os → List ℕ → Option NvmConfig → Option NvmConfig
open_config os nvm_path none = nvmconfig os nvm_path heap_size
open_config os nvm_path (some c) = some c

unfoldable pub escort_is_recovery : Os → List ℕ → Option NvmConfig → Option (Bool × NvmConfig)
unfolding open_config
escort_is_recovery os nvm_path nvm_config = do
  c ← open_config os nvm_path nvm_config
  some (c.config.is_dirty, c)

-- What a constructor that returns has opened.
pub record OpenedFile (os : Os) (nvm_path : List ℕ) (size : ℕ) (c : NvmConfig) : Type 0 where
  pub fd : ℕ
  pub start : ℕ
  pub opens : os.open_file nvm_path ≡ some fd
  pub maps : os.mmap (os.file_size nvm_path) fd ≡ some start
  pub config : c.config ≡ create_area start (os.file_size nvm_path) size (os.words fd)

-- Of the constructor's three areas only the first one makes up `config`.
config_of :
    (words : ℕ → ℕ → ℕ) (size : ℕ) (file : Option (ℕ × Area)) (redolog allocatorlog : Option Area)
    (c : NvmConfig)
    → (file >>= λ (fd, (address, n)). redolog >>= λ r. allocatorlog >>= λ a. some (record {
      config = create_area address n size (words fd);
      redolog_area = r;
      allocatorlog_area = a;
    }))
      ≡ some c
    → (fd : ℕ) × (start : ℕ) × (n : ℕ) × (file ≡ some (fd, (start, n)))
      × (c.config ≡ create_area start n size (words fd))
config_of words size none r a c h = cc
config_of words size (some (fd, (start, n))) none a c h = cc
config_of words size (some (fd, (start, n))) (some r) none c h = cc
config_of words size (some (fd, (start, n))) (some r) (some a) c h =
    (fd, start, n, refl, ap (λ x. x.config) (sym (some_same h)))
  where
    some_same : {x y : NvmConfig} → some x ≡ some y → x ≡ y
    some_same e = cc

abbrev map_file : Option ℕ → (ℕ → Option ℕ) → ℕ → Option (ℕ × Area)
map_file open_result mmap size = do fd ← open_result; address ← mmap fd; some (fd, (address, size))

mapped_file :
    (open_result : Option ℕ) (mmap : ℕ → Option ℕ) (size fd start n : ℕ)
    → map_file open_result mmap size ≡ some (fd, (start, n))
    → (open_result ≡ some fd) × (mmap fd ≡ some start) × (size ≡ n)
mapped_file none mmap size fd start n h = cc
mapped_file (some f) mmap size fd start n h = elim (Option-cases (mmap f)) [
  | inl failed ↦ absurd (ground arith)
  | inr (address, e) ↦ (ground (arith, e), ground (arith, e), ground (arith, e))
]

pub nvmconfig-OpenedFile :
    (os : Os) (nvm_path : List ℕ) (size : ℕ) (c : NvmConfig)
    → nvmconfig os nvm_path size ≡ some c
    → OpenedFile os nvm_path size c
unfolding nvmconfig
nvmconfig-OpenedFile os nvm_path size c h =
    let (fd, start, n, opened, e) =
      config_of os.words size (open_nvmfile os nvm_path)
        (create_redolog_area os (nvm_path ++ redolog_suffix))
        (create_allocatorlog_area os (nvm_path ++ allocatorlog_suffix)) c h in
    let (op, mp, sz) =
      mapped_file (os.open_file nvm_path) (os.mmap (os.file_size nvm_path)) (os.file_size nvm_path)
        fd start n opened in
    record {
      fd = fd;
      start = start;
      opens = op;
      maps = mp;
      config = e ∙ ap (λ x. create_area start x size (os.words fd)) (sym sz);
    }

opened_once : {m : Option ℕ} {a b : ℕ} → m ≡ some a → m ≡ some b → a ≡ b
opened_once p q = cc

-- `create_area` stores the base of the heap in the first word of the file and leaves the word of the
-- epoch.
stored :
    (start n : ℕ) (words : ℕ → ℕ) (d : Config)
    → d ≡ create_area start n heap_size words
    → (d.words d.start_address ≡ dram_base)
      × (d.words d.g_epoch_pointer_addr ≡ words d.g_epoch_pointer_addr)
unfolding create_area
stored start n words d e =
    subst
      (λ x.
        (x.words x.start_address ≡ dram_base)
        × (x.words x.g_epoch_pointer_addr ≡ words x.g_epoch_pointer_addr))
      (sym e) (ground arith, ground arith)

is_dirty_of :
    (n start : ℕ) (words : ℕ → ℕ) (d : Config)
    → d ≡ create_area start n heap_size words
    → words d.start_address ≡ dram_base
    → d.is_dirty ≡ true
unfolding create_area
is_dirty_of n start words d e first =
    ground
      (arith, ap (λ x. x.is_dirty) e, ap (λ x. words x.start_address) e, ==_iff (words start) 0)

-- Once the constructor has returned for a file, `escort_is_recovery` of a later process that opens the file
-- with its first word as that left it yields true, whatever the word of the epoch, which the constructor
-- has left as it was.
pub opened_is_recovery :
    (os os' : Os) (nvm_path : List ℕ) (c c' : NvmConfig) (r : Bool)
    → nvmconfig os nvm_path heap_size ≡ some c
    → escort_is_recovery os' nvm_path none ≡ some (r, c')
    → ((fd : ℕ) → os'.words fd c'.config.start_address ≡ c.config.words c.config.start_address)
    → (r ≡ true)
      × ((fd : ℕ)
          → os.open_file nvm_path ≡ some fd
          → c.config.words c.config.g_epoch_pointer_addr
            ≡ os.words fd c.config.g_epoch_pointer_addr)
unfolding escort_is_recovery open_config
opened_is_recovery os os' nvm_path c c' r h k same =
    elim (Option-cases (nvmconfig os' nvm_path heap_size)) [
      | inl failed ↦ absurd (ground arith)
      | inr (c'', e) ↦
          let o = nvmconfig-OpenedFile os nvm_path heap_size c h in
          let o' = nvmconfig-OpenedFile os' nvm_path heap_size c'' e in
          let at : c'' ≡ c' = ground (arith, e) in
          let dirty : c''.config.is_dirty ≡ r = ground (arith, e) in
          (
            sym dirty
                ∙ is_dirty_of (os'.file_size nvm_path) o'.start (os'.words o'.fd) c''.config
                    o'.config
                    (subst
                        (λ x.
                          os'.words o'.fd x.config.start_address
                          ≡ c.config.words c.config.start_address)
                        (sym at) (same o'.fd)
                      ∙ (stored o.start (os.file_size nvm_path) (os.words o.fd) c.config
                          o.config).0),
            λ fd op.
                (stored o.start (os.file_size nvm_path) (os.words o.fd) c.config o.config).1
                ∙ ap (λ x. os.words x c.config.g_epoch_pointer_addr) (opened_once o.opens op),
          )
    ]
