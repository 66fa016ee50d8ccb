-- ===== src/SystemCommands/Start.antt =====
-- The commands that shell_init of kernel/src/shell.c registers, by the functions of
-- kernel/src/commands. A registered function is the name of the C function.
use Prim.Native.String.{String}
use os_from_zero.Base.{List, [], ◌∷◌, ◌++◌, codes}
use os_from_zero.Shell.{CommandEntry, register_command}

pub data Function : Type 0 where
  cmd_help cmd_clear cmd_about cmd_echo cmd_uptime : Function
  cmd_exit cmd_version cmd_cmdcount command_fpu_test cmd_ls : Function
  cmd_cat cmd_rm cmd_touch cmd_write cmd_df : Function
  cmd_beep cmd_tone cmd_stop cmd_play cmd_notes : Function
  cmd_audio_test cmd_audio_debug cmd_guess_number cmd_tictactoe cmd_rockpaperscissors : Function
  cmd_exec cmd_load cmd_ps cmd_kill cmd_compile : Function
  cmd_hello cmd_windows cmd_wmdebug cmd_gpu_test : Function

abbrev pub entry : String → Function → String → String → String → CommandEntry Function
entry name func description usage category = record {
  name = codes name;
  func = func;
  description = description;
  usage = usage;
  category = category;
}

-- The calls of register_command in turn; what it returns is not looked at.
unfoldable pub register_all :
    List (CommandEntry Function) → List (CommandEntry Function) → List (CommandEntry Function)
unfolding register_command
register_all commands [] = commands
register_all commands (c ∷ cs) = register_all (register_command commands c).1 cs

unfoldable pub system_commands : List (CommandEntry Function)
system_commands =
    entry "help" Function.cmd_help "Show available commands" "help [command]" "System"
    ∷ entry "clear" Function.cmd_clear "Clear the screen" "clear" "System"
    ∷ entry "about" Function.cmd_about "Show system information" "about" "System"
    ∷ entry "echo" Function.cmd_echo "Echo text to output" "echo [text]" "System"
    ∷ entry "uptime" Function.cmd_uptime "Show system uptime" "uptime" "System"
    ∷ entry "exit" Function.cmd_exit "Exit and halt the system" "exit" "System"
    ∷ entry "version" Function.cmd_version "Show detailed version info" "version" "Info"
    ∷ entry "cmdcount" Function.cmd_cmdcount "Show command registry status" "cmdcount" "System"
    ∷ []

unfoldable pub math_commands : List (CommandEntry Function)
math_commands =
    entry "fputest" Function.command_fpu_test "Run a simple FPU test" "fputest" "Math" ∷ []

unfoldable pub filesystem_commands : List (CommandEntry Function)
filesystem_commands =
    entry "ls" Function.cmd_ls "List files and directories" "ls" "Filesystem"
    ∷ entry "cat" Function.cmd_cat "Display file contents" "cat <filename>" "Filesystem"
    ∷ entry "rm" Function.cmd_rm "Remove a file" "rm <filename>" "Filesystem"
    ∷ entry "touch" Function.cmd_touch "Create an empty file" "touch <filename>" "Filesystem"
    ∷ entry "write" Function.cmd_write "Write text to a file" "write <filename> <text>" "Filesystem"
    ∷ entry "df" Function.cmd_df "Show filesystem usage" "df" "Filesystem"
    ∷ []

unfoldable pub audio_commands : List (CommandEntry Function)
audio_commands =
    entry "beep" Function.cmd_beep "Play a beep tone" "beep [frequency] [duration]" "Audio"
    ∷ entry "tone" Function.cmd_tone "Play continuous tone" "tone <frequency>" "Audio"
    ∷ entry "stop" Function.cmd_stop "Stop audio playback" "stop" "Audio"
    ∷ entry "play" Function.cmd_play "Play predefined melodies" "play <melody>" "Audio"
    ∷ entry "notes" Function.cmd_notes "Show musical note frequencies" "notes" "Audio"
    ∷ entry "audiotest" Function.cmd_audio_test "Test audio system" "audiotest" "Audio"
    ∷ entry "audiodebug" Function.cmd_audio_debug "Low-level hardware test" "audiodebug" "Audio"
    ∷ []

unfoldable pub game_commands : List (CommandEntry Function)
game_commands =
    entry "guess" Function.cmd_guess_number "Play a number guessing game" "guess" "Games"
    ∷ entry "tictactoe" Function.cmd_tictactoe "Play Tic-Tac-Toe" "tictactoe" "Games"
    ∷ entry "rps" Function.cmd_rockpaperscissors "Play Rock Paper Scissors" "rps" "Games"
    ∷ []

unfoldable pub execution_commands : List (CommandEntry Function)
execution_commands =
    entry "exec" Function.cmd_exec "Execute a program (simulation mode)" "exec <filename>"
      "Execution"
    ∷ entry "load" Function.cmd_load "Load a program without executing" "load <filename>"
        "Execution"
    ∷ entry "ps" Function.cmd_ps "List all processes" "ps" "Execution"
    ∷ entry "kill" Function.cmd_kill "Terminate a process" "kill <pid>" "Execution"
    ∷ entry "compile" Function.cmd_compile "Create a simple test program" "compile <filename>"
        "Development"
    ∷ entry "hello" Function.cmd_hello "Create a Hello World program" "hello <filename>"
        "Development"
    ∷ []

unfoldable pub window_example_commands : List (CommandEntry Function)
window_example_commands =
    entry "windows" Function.cmd_windows "Create example windows to demonstrate the window manager"
      "windows [simple|colors|pattern|info|multiple]" "Desktop"
    ∷ entry "wmdebug" Function.cmd_wmdebug "Show window manager debug information" "wmdebug"
        "Desktop"
    ∷ []

unfoldable pub gpu_commands : List (CommandEntry Function)
gpu_commands =
    entry "gpu-test" Function.cmd_gpu_test "Test GPU rendering capabilities" "gpu-test" "Graphics"
    ∷ []

-- register_system_commands calls register_math_commands at its end.
unfoldable pub all_commands : List (CommandEntry Function)
unfolding system_commands math_commands filesystem_commands audio_commands game_commands
    execution_commands window_example_commands gpu_commands
all_commands =
    system_commands
    ++ (math_commands
        ++ (filesystem_commands
            ++ (audio_commands
                ++ (game_commands
                    ++ (execution_commands ++ (window_example_commands ++ gpu_commands))))))

-- The registry after shell_init.
unfoldable pub shell_init : List (CommandEntry Function)
unfolding register_all all_commands
shell_init = register_all [] all_commands
