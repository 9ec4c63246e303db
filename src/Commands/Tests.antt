-- ===== src/Commands/Tests.antt =====
-- Examples for the commands.
use blahgd.Prelude.{◌≡◌, ◌↔◌, some, codes}
use blahgd.Commands.{Cmd, process_abbrev, allowed, required, cmds, find_cmd}
use blahgd.Commands.Table.{IsIn, find_cmd_iff}

abbrev abbrev_cmd : Cmd
abbrev_cmd = record {
  name = codes "abbrev";
  fxn = process_abbrev;
  square = allowed;
  curly = required;
}

find_cmd_iff_example :
    (find_cmd (codes "abbrev") ≡ some abbrev_cmd)
    ↔ ((codes "abbrev" ≡ abbrev_cmd.name) × IsIn abbrev_cmd cmds)
find_cmd_iff_example = find_cmd_iff (codes "abbrev") abbrev_cmd
