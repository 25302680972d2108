-- ===== src/Devfs/Terminal.antt =====
-- The path of a terminal, from `sys_open` to its driver.
use os_training.Base.{
  ==_self, ℕ, suc, ◌<◌, ◌^◌, ◌≡◌, ◌≢◌, refl, sym, ap, ◌∙◌, ℤ, pos, is_neg, minus_one, true, false,
  ◌==◌, ltb, if◌then◌else◌, Option, some, List, [], ◌∷◌, ◌++◌, length, arith,
}
use mathlib.Core.Bool.{false≢true}
use os_training.LinkedList.{null}
use os_training.LinkedList.Chain.{IsList, ne→==_false}
use os_training.Text.{kernel_itoa}
use os_training.Text.Strings.{kernel_strncmp, kernel_strlen, same_start}
use os_training.Paths.{slash, path_to_num, path_next_child, path_begin_with}
use os_training.Paths.Child.{path_next_child-rest}
use os_training.Paths.Prefix.{path_begin_with-append}
use os_training.Paths.Numbers.{path_to_num-kernel_itoa}
use os_training.Files.{File, task_file}
use os_training.Files.Table.{entry}
use os_training.Files.Descriptors.{HasTable}
use os_training.Device.{DeviceEntry, Drivers, dev_open}
use os_training.Fs.{Kernel, MountedFs, FsOps, address}
use os_training.Fs.Find.{Chosen, here, there, nowhere}
use os_training.Fs.Open.{sys_open}
use os_training.Fs.Open.Outcome.{
  OpenResult, no_file, no_fd, answered, request, asked_fs, asked_path, call_of, sys_open-OpenResult,
}
use os_training.Devfs.{Devices, tty_name, dev_tty, file_tty, open_device_file, devfs_open, devfs_op}

-- A path that starts with the name of the terminals.
devfs_open-tty :
    {S : Type 0}
    → (ds : Drivers S) (stale fs : ℕ) (cs : List ℕ) (f : File) (tbl : ℕ → DeviceEntry) (s : S)
    → 0 < length cs
    → devfs_open ds stale fs (some (tty_name ++ cs)) f (tbl, s)
      ≡ open_device_file ds fs f (dev_open ds tbl s dev_tty (path_to_num cs) 0)
unfolding devfs_open kernel_strncmp same_start kernel_strlen
devfs_open-tty ds stale fs [] f tbl s more = absurd (omega arith)
devfs_open-tty ds stale fs (c ∷ cs) f tbl s more =
    let longer : ltb 3 (suc (suc (suc (suc (length cs))))) ≡ true = ground arith in rw longer refl

-- "/dev", and the path of a terminal.
abbrev pub dev_name : List ℕ
dev_name = 47 ∷ 100 ∷ 101 ∷ 118 ∷ []

abbrev pub tty_path : (cs : List ℕ) → List ℕ
tty_path cs = dev_name ++ (slash ∷ (tty_name ++ cs))

path_next_child-tty : (cs : List ℕ) → path_next_child (tty_path cs) ≡ some (tty_name ++ cs)
path_next_child-tty cs =
    (path_next_child-rest 1 100 (101 ∷ 118 ∷ []) (tty_name ++ cs) (refl, (refl, (refl, tt)))).0

-- The first of the mounted file systems is chosen, if its mount point fits.
Chosen-first :
    {S : Type 0} {tbl : ℕ → MountedFs S} {name xs : List ℕ} {m : ℕ}
    → Chosen tbl name xs m
    → (d : ℕ) (ms : List ℕ) → xs ≡ d ∷ ms
    → path_begin_with name (tbl d).mount_point ≡ true
    → m ≡ d
Chosen-first (here m xs hit) d ms e begins = cc
Chosen-first {tbl} {name} (there m xs r miss c) d ms e begins =
    let same : m ≡ d = cc in
    absurd
      (false≢true (sym miss ∙ ap (λ a. path_begin_with name (tbl a).mount_point) same ∙ begins))
Chosen-first (nowhere r e') d ms e begins = absurd (ground arith)

-- What `devfs_open` gives for a terminal that its driver opens.
abbrev pub tty_file : (fs dev_id : ℕ) → File → File
tty_file fs dev_id f = record f {
  dev_id = pos dev_id;
  fs = fs;
  pos = pos 0;
  size = 0;
  type = file_tty;
}

-- The open succeeded: it gives a descriptor of a file that is the terminal `dev_id`.
abbrev pub Reaches :
    {S : Type 0} → Option (ℤ × Kernel (Devices S)) → (dev_id : ℕ) → Devices S → Type 0
Reaches {S} o dev_id devices =
    (k' : Kernel (Devices S)) × (i : ℕ) × (fd : ℕ) × (o ≡ some (pos fd, k'))
    × (task_file k'.manager (pos fd) ≡ address i)
    × ((entry k'.file_table i).dev_id ≡ pos dev_id)
    × ((entry k'.file_table i).type ≡ file_tty)
    × (k'.inner ≡ devices)

module _ {S : Type 0} (ds : Drivers S) (k : Kernel (Devices S)) (flags : ℤ) (stale d dev_id : ℕ)
    (tbl : ℕ → DeviceEntry) (s : S) where
  -- The call that the file system of the devices gets.
  devfs_call :
      (m n : ℕ) (cs : List ℕ) (call : ℤ × File × Devices S)
      → d ≢ null
      → m ≡ d
      → (k.fs_tbl d).op ≡ devfs_op ds stale
      → 0 < length cs
      → path_to_num cs ≡ n
      → dev_open ds k.inner.0 k.inner.1 dev_tty n 0 ≡ (some dev_id, tbl, s)
      → call ≡ call_of k (asked_fs k.root_fs m) (asked_path (tty_path cs) m) flags
      → call ≡ (pos 0, tty_file d dev_id (request d (some (tty_name ++ cs)) flags), (tbl, s))
  devfs_call m n cs call ne same op more number opens called =
      let req = request d (some (tty_name ++ cs)) flags in
      let there_is : (d == null) ≡ false = ne→==_false d null ne in
      let dev = λ (a : ℕ). dev_open ds k.inner.0 k.inner.1 dev_tty a 0 in
      let by_devfs : (devfs_op ds stale).open_file d (some (tty_name ++ cs)) req k.inner
          ≡ (pos 0, tty_file d dev_id req, (tbl, s)) =
        devfs_open-tty ds stale d cs req k.inner.0 k.inner.1 more
        ∙ ap (λ a. open_device_file ds d req (dev a)) number
        ∙ ap (open_device_file ds d req) opens in
      called
      ∙ ap (λ a. call_of k (asked_fs k.root_fs a) (asked_path (tty_path cs) a) flags) same
      ∙ rw (there_is, path_next_child-tty cs)
          (ap (λ (o : FsOps (Devices S)). o.open_file d (some (tty_name ++ cs)) req k.inner) op
            ∙ by_devfs)

  sys_open-tty :
      (ms : List ℕ) (n spare place : ℕ) (cs : List ℕ) {o : Option (ℤ × Kernel (Devices S))}
      → d ≢ null
      → (k.fs_tbl d).mount_point ≡ dev_name
      → (k.fs_tbl d).op ≡ devfs_op ds stale
      → spare < length k.file_table
      → (entry k.file_table spare).ref ≡ pos 0
      → place < 128
      → task_file k.manager (pos place) ≡ null
      → 0 < length cs
      → path_to_num cs ≡ n
      → dev_open ds k.inner.0 k.inner.1 dev_tty n 0 ≡ (some dev_id, tbl, s)
      → OpenResult k (tty_path cs) flags (d ∷ ms) o
      → Reaches o dev_id (tbl, s)
  sys_open-tty ms n spare place cs ne point op inside unused in_table free more number opens
        (no_file none_free) =
      absurd (none_free spare inside unused)
  sys_open-tty ms n spare place cs ne point op inside unused in_table free more number opens
        (no_fd table none_free same) =
      absurd (none_free place in_table free)
  sys_open-tty ms n spare place cs ne point op inside unused in_table free more number opens
        (answered m i fd k' call chosen called unused' free' inner entries leads) =
      let begins : path_begin_with (tty_path cs) (k.fs_tbl d).mount_point ≡ true =
        rw point
          ((path_begin_with-append (tty_path cs) dev_name).1 (slash ∷ (tty_name ++ cs), refl)) in
      let same = Chosen-first chosen d ms refl begins in
      let r = devfs_call m n cs call ne same op more number opens called in
      let own : entry k'.file_table i ≡ call.1 = entries i ∙ rw (==_self i) refl in
      (
        k',
        i,
        fd,
        ap (λ c. some (if is_neg c.0 then minus_one else pos fd, k')) r,
        leads fd ∙ rw (==_self fd) refl,
        ap (λ f. f.dev_id) own ∙ ap (λ c. c.1.dev_id) r,
        ap (λ f. f.type) own ∙ ap (λ c. c.1.type) r,
        inner ∙ ap (λ c. c.2) r,
      )

  -- With the file system of the devices mounted first, on "/dev", a file and a descriptor free,
  -- and a driver that opens terminal `n`, a number below 2 ^ 31, `sys_open` of "/dev/tty" and the
  -- digits that `kernel_itoa` writes for `n` succeeds: its descriptor leads to a file that is the
  -- terminal of the device that `dev_open` gave, and the devices are as `dev_open` left them. The
  -- task's table has its 128 entries.
  pub sys_open-terminal :
      (ms : List ℕ) (n spare place : ℕ)
      → IsList k.fs_nodes k.mounted_list (d ∷ ms)
      → (k.fs_tbl d).mount_point ≡ dev_name
      → (k.fs_tbl d).op ≡ devfs_op ds stale
      → HasTable k.manager
      → spare < length k.file_table
      → (entry k.file_table spare).ref ≡ pos 0
      → place < 128
      → task_file k.manager (pos place) ≡ null
      → n < 2 ^ 31
      → dev_open ds k.inner.0 k.inner.1 dev_tty n 0 ≡ (some dev_id, tbl, s)
      → (cs : List ℕ) × (kernel_itoa (pos n) 10 ≡ some cs)
        × Reaches (sys_open k (tty_path cs) flags) dev_id (tbl, s)
  sys_open-terminal ms n spare place is point op full inside unused in_table free small opens =
      let (cs, written, number, _, more) = path_to_num-kernel_itoa n small in
      (
        cs,
        written,
        sys_open-tty ms n spare place cs is.chain.1 point op inside unused in_table free more number
            opens (sys_open-OpenResult k (tty_path cs) flags (d ∷ ms) is full),
      )
