-- ===== src/Deploy/Install.antt =====
-- `remoteStagingPath` and `applyInstall` of server/utils/deployment-job-runner.ts, as the list of
-- the commands that an installation runs one after the other. The random parts of the paths are
-- arguments, and letters outside ASCII keep their case.
use Prim.Native.Char.{code}
use Prim.Native.String.{[], ◌∷◌}
use esos_webui.Common.{
  Bool, List, String, [], false, if◌then◌else◌, is_alnum, is_blank, leb, lower_code, or_else,
  template, trim, true, ℕ, ◌&&◌, ◌++◌, ◌==◌, ◌||◌, ◌∷◌,
}
use esos_webui.Shell.Defs.{shell_single_quote}
use esos_webui.Lvm.Execute.{ExecResult, first_text}
use esos_webui.Deploy.Types.{
  BinaryKind, rpm, executable, archive, InstallKind, copy_executable, unpack_rpm, perccli,
  DeploymentBinary,
}

-- `[\w.-]`
unfoldable pub is_file_char : ℕ → Bool
unfolding is_alnum
is_file_char c = is_alnum c || c == b'_' || c == b'.' || c == b'-'

-- `.replace(/[^\w.-]/g, '_')`; a character above U+FFFF is two units of a JavaScript string.
unfoldable pub safe_filename : String → String
unfolding is_file_char
safe_filename [] = []
safe_filename (c ∷ s) =
    let rest = safe_filename s in
    if is_file_char (code c)
    then c ∷ rest
    else if leb 65536 (code c)
    then "_" ∷ "_" ∷ rest
    else "_" ∷ rest

unfoldable pub remote_staging_path : String → DeploymentBinary → String
unfolding safe_filename template
remote_staging_path random binary =
    template ("/tmp/esos-deploy-" ∷ random ∷ "-" ∷ safe_filename binary.filename ∷ [])

-- `filename.toLowerCase().startsWith(word)` at the beginning of a text, and `includes` anywhere.
begins_lower : String → String → Bool
unfolding lower_code
begins_lower [] s = true
begins_lower (p ∷ ps) [] = false
begins_lower (p ∷ ps) (c ∷ s) = lower_code (code c) == code p && begins_lower ps s

includes_lower : String → String → Bool
unfolding begins_lower
includes_lower word [] = begins_lower word []
includes_lower word (c ∷ s) = begins_lower word (c ∷ s) || includes_lower word s

-- `installSpec.installKind ?? (kind === 'rpm' ? 'rpm' : 'copy_executable')`, and the branch taken.
default_kind : BinaryKind → InstallKind
default_kind rpm = unpack_rpm
default_kind executable = copy_executable
default_kind archive = copy_executable

branch : InstallKind → String → InstallKind
unfolding includes_lower
branch perccli filename = perccli
branch unpack_rpm filename = if includes_lower "perccli" filename then perccli else unpack_rpm
branch copy_executable filename = copy_executable

unfoldable pub install_kind : DeploymentBinary → InstallKind
unfolding branch default_kind
install_kind b = branch (or_else b.install_spec.install_kind (default_kind b.kind)) b.filename

-- A command, with the branch that runs it.
pub record InstallStep : Type 0 where
  pub command : String
  pub branch : InstallKind

unfoldable pub install_commands : String → DeploymentBinary → String → InstallKind → List String
unfolding shell_single_quote template
install_commands random binary remote_path perccli =
    let remote = shell_single_quote remote_path in
    let work = shell_single_quote (template ("/tmp/esos-perccli-work-" ∷ random ∷ [])) in
    template ("mkdir -p " ∷ work ∷ [])
    ∷ template ("cd " ∷ work ∷ " && rpm2cpio " ∷ remote ∷ " | cpio -idmv 2>&1" ∷ [])
    ∷ template (
        "cd " ∷ work
        ∷ " && p=$(find . -type f -name 'perccli64' 2>/dev/null | head -1); test -n \"$p\" && mkdir -p /opt/MegaRAID/perccli && cp -f \"$p\" /opt/MegaRAID/perccli/perccli64 && chmod 755 /opt/MegaRAID/perccli/perccli64"
        ∷ [])
    ∷ "ln -sf /opt/MegaRAID/perccli/perccli64 /usr/local/sbin/perccli64"
    ∷ "ln -sf /opt/MegaRAID/perccli/perccli64 /usr/local/sbin/perccli"
    ∷ []
install_commands random binary remote_path unpack_rpm =
    let work = shell_single_quote (template ("/tmp/esos-rpm-work-" ∷ random ∷ [])) in
    template (
      "mkdir -p "
      ∷ work
      ∷ " && cd "
      ∷ work
      ∷ " && rpm2cpio "
      ∷ shell_single_quote remote_path
      ∷ " | cpio -idmv 2>&1"
      ∷ [])
    ∷ []
install_commands random binary remote_path copy_executable =
    let default = template ("/usr/local/sbin/" ∷ binary.filename ∷ []) in
    let dest = shell_single_quote (or_else binary.install_spec.remote_path default) in
    template ("cp -f " ∷ shell_single_quote remote_path ∷ " " ∷ dest ∷ " && chmod 755 " ∷ dest ∷ [])
    ∷ []

-- The text of the error that a command's exit code other than zero throws.
unfoldable pub install_error : InstallKind → String → ExecResult → String
unfolding trim first_text template
install_error perccli command res =
    first_text (trim res.stderr ∷ trim res.stdout ∷ template ("Échec: " ∷ command ∷ []) ∷ [])
install_error unpack_rpm command res = first_text (trim res.stderr ∷ "Extraction RPM échouée" ∷ [])
install_error copy_executable command res = first_text (trim res.stderr ∷ "Copie échouée" ∷ [])

-- The lines that are logged after a command.
unfoldable pub install_output : InstallKind → ExecResult → List String
unfolding trim
install_output perccli res =
    (if is_blank (trim res.stdout) then [] else trim res.stdout ∷ [])
    ++ (if is_blank (trim res.stderr) then [] else trim res.stderr ∷ [])
install_output unpack_rpm res = if is_blank (trim res.stdout) then [] else trim res.stdout ∷ []
install_output copy_executable res = []
