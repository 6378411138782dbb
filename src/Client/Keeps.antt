-- ===== src/Client/Keeps.antt =====
-- No command touches the standard input or the command buffer.
use ext.Base.{ℕ, [], ◌∷◌, Option, none, some}
use ext.Base.Image.{Bytes}
use ext.Session.{S}
use ext.Session.Keeps.{
  Keeps, keeps_rules, Keeps-bind, Keeps-option, Keeps-tried, Keeps-return, Keeps-on_file,
  Keeps-print, Keeps-if, Keeps-crash,
}
use ext.Paths.{parse_command}
use ext.Client.Input.{get_file_size}
use ext.Client.Copy.{
  read_from, read_and_tell, write_and_tell, write_to_file_from_file, read_file_to_file,
}
use ext.Client.Dispatch.{
  array_text, show_readed, read_command, with_arg, with_two, handle_read, handle_read_to, handle_ls,
  handle_open, handle_write, handle_init, handle_read_fs, handle,
}

Keeps-get_file_size : (path : Bytes) → Keeps (get_file_size path)
unfolding get_file_size
Keeps-get_file_size path = search keeps_rules

Keeps-read_from : (path : Bytes) (size : ℕ) → Keeps (read_from path size)
unfolding read_from
Keeps-read_from path size =
    Keeps-bind (search keeps_rules)
      (λ o. Keeps-option o (search keeps_rules) (λ _. search keeps_rules))

Keeps-write_and_tell : (path : Bytes) (fd : ℕ) (bs : Bytes) → Keeps (write_and_tell path fd bs)
unfolding write_and_tell
Keeps-write_and_tell path fd bs =
    Keeps-bind (Keeps-on_file _ _) (λ o. Keeps-option o (Keeps-return tt) (λ n. Keeps-print _))

Keeps-read_and_tell : (path : Bytes) (room fd size : ℕ) → Keeps (read_and_tell path room fd size)
unfolding read_and_tell
Keeps-read_and_tell path room fd size = Keeps-bind (Keeps-tried (Keeps-on_file _ _)) (λ o.
    Keeps-option o (Keeps-return _)
      (λ bytes. Keeps-if _ Keeps-crash (Keeps-bind (Keeps-print _) (λ _. Keeps-return _))))

Keeps-read_command : (path : Bytes) (fd size : ℕ) → Keeps (read_command path fd size)
unfolding read_command show_readed
Keeps-read_command path fd size = Keeps-bind (Keeps-read_and_tell _ _ _ _) (λ dest.
    Keeps-if _ (Keeps-option (array_text size dest) Keeps-crash (λ t. Keeps-print _)) Keeps-crash)

Keeps-write_to_file_from_file :
    (path : Bytes) (fd : ℕ) (from : Bytes) → Keeps (write_to_file_from_file path fd from)
unfolding write_to_file_from_file
Keeps-write_to_file_from_file path fd from =
    Keeps-bind (Keeps-tried (Keeps-get_file_size from)) (λ found.
      Keeps-option found (Keeps-return tt) (λ size.
        Keeps-bind (Keeps-read_from from size) (λ readed.
          Keeps-option readed (Keeps-return tt)
            (λ buffer. Keeps-if _ (Keeps-return tt) (Keeps-write_and_tell _ _ _)))))

Keeps-read_file_to_file :
    (path : Bytes) (fd : ℕ) (to : Bytes) (size : Option ℕ)
    → Keeps (read_file_to_file path fd to size)
unfolding read_file_to_file
Keeps-read_file_to_file path fd to size = Keeps-bind (Keeps-on_file _ _) (λ max_size.
    Keeps-bind (Keeps-read_and_tell _ _ _ _) (λ buffer.
      Keeps-option buffer (Keeps-return tt) (λ bytes.
        Keeps-bind (Keeps-on_file _ _)
          (λ result. Keeps-option result (Keeps-return tt) (λ total. Keeps-print _)))))

Keeps-with_arg :
    (command : Bytes) (arg : Option Bytes) (act : Bytes → S (Unit {0}))
    → ((text : Bytes) → Keeps (act text))
    → Keeps (with_arg command arg act)
unfolding with_arg
Keeps-with_arg command none act k = search keeps_rules
Keeps-with_arg command (some []) act k = search keeps_rules
Keeps-with_arg command (some (x ∷ text)) act k = k (x ∷ text)

Keeps-with_two :
    (command : Bytes) (args : Option Bytes) (act : ℕ → Bytes → S (Unit {0}))
    → ((fd : ℕ) (text : Bytes) → Keeps (act fd text))
    → Keeps (with_two command args act)
unfolding with_two
Keeps-with_two command args act k =
    Keeps-with_arg command args _ (λ text. Keeps-with_arg command _ _ (λ second. k _ second))

Keeps-handle_read : (path : Bytes) (args : Option Bytes) → Keeps (handle_read path args)
unfolding handle_read
Keeps-handle_read path none = search keeps_rules
Keeps-handle_read path (some text) = Keeps-with_arg _ _ _ (λ second. Keeps-read_command _ _ _)

Keeps-handle_read_to : (path : Bytes) (fd : ℕ) (text : Bytes) → Keeps (handle_read_to path fd text)
unfolding handle_read_to
Keeps-handle_read_to path fd text =
    Keeps-option (parse_command text).1 (Keeps-read_file_to_file _ _ _ _)
      (λ third. Keeps-if _ (Keeps-read_file_to_file _ _ _ _) (Keeps-read_file_to_file _ _ _ _))

Keeps-handle_ls : (path text : Bytes) → Keeps (handle_ls path text)
unfolding handle_ls
Keeps-handle_ls path text = search keeps_rules

Keeps-handle_open : (path text : Bytes) → Keeps (handle_open path text)
unfolding handle_open
Keeps-handle_open path text =
    Keeps-bind (Keeps-on_file _ _) (λ o. Keeps-option o (Keeps-return tt) (λ n. Keeps-print _))

Keeps-handle_write : (path : Bytes) (fd : ℕ) (text : Bytes) → Keeps (handle_write path fd text)
unfolding handle_write
Keeps-handle_write path fd text = Keeps-write_and_tell _ _ _

Keeps-handle_init : (path : Bytes) → Keeps (handle_init path)
unfolding handle_init
Keeps-handle_init path = search keeps_rules

Keeps-handle_read_fs : (path : Bytes) → Keeps (handle_read_fs path)
unfolding handle_read_fs
Keeps-handle_read_fs path = search keeps_rules

pub handle-Keeps : (path command : Bytes) (args : Option Bytes) → Keeps (handle path command args)
unfolding handle
handle-Keeps path command args =
    search
      (
        keeps_rules, Keeps-handle_init, Keeps-handle_read_fs, Keeps-handle_ls, Keeps-handle_open,
        Keeps-handle_write, Keeps-handle_read, Keeps-handle_read_to, Keeps-write_to_file_from_file,
        Keeps-with_arg, Keeps-with_two,
      )
      depth 40
