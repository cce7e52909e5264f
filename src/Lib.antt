-- ===== src/Lib.antt =====
-- cincan-command: a model of the command line tool that runs other tools in containers.
--
-- The tool starts a container of an image, copies the input files in, passes the container's
-- streams on, copies the files that have changed out, and keeps a log of what each command has read
-- and written. The files here model these parts; each names its source in its first lines.
--
-- Parts and files:
--   Prelude           lists, texts as lists of character codes, equality, sorting
--   Path              the POSIX paths of Python's pathlib that the program computes with
--   Matcher           `FileMatcher` of cincan/file_tool.py: `matches` is `__match`, on the pieces that
--                     `split` gives; `filter_upload_files` and `filter_download_files` have their names
--   Shlex             the lexer of Python's shlex, as the program sets it up
--   Resolver          `FileResolver` of cincan/file_tool.py (`file_resolver`): the files of the host that
--                     a command line names, and the arguments with their names in the container
--   Resolver/Upload   `detect_upload_files` and `resolve_upload_files`: what is uploaded under which name
--   Tar/Upload        `upload`, `__create_tar` and `__list_members` of cincan/tar_tool.py
--   Tar/Upload/Members  what an archive that is made has of the host's files
--   Tar/Config        `__read_config_file` of cincan/tar_tool.py (`config_lines`) and the filters that
--                     `__filter_files` makes of the lines (`ignore_filters`)
--   Tar/Filter        `__filter_files` (`filter_files`): which changed files are downloaded
--   Tar/Modified      `__check_if_modified` (`check_if_modified`) with `upload_stats`
--   Tar/Download      `__download_file_set` (`download_file_set`): the loop over an archive (`step`), with
--                     the host's working directory, the tar file written to and the log as state
--   Tar/Download/Met  which files of the set the loop has met
--   Tar/Download/Content, Tar/Download/Stored, Tar/Download/OnDisk, Tar/Results/OnDisk  what a download
--                     leaves on the host
--   Tar/Download/Returns, Tar/Results/Returns  when a download returns
--   Tar/Results/Rounds  what the rounds show if the loop over each archive does
--   Tar/Results       `download_files` (`download_files`): the rounds that ask the container for files
--   Tar/Results/WorkDir  the working directory of `TarTool.__init__` (`work_dir_of`)
--   Stream            `__unpack_container_stream` of cincan/frontend.py: a socket is the list of pieces
--                     that have still to arrive
--   Session           `ToolStream` and the loop of `__container_exec`: `step` is what one `select` finds
--                     ready, `run` the loop, `recorded` the log entries at the end
--   Session/Exec      the rest of `__container_exec` (`container_exec`): a failing start, Ctrl+C, and the log
--   Frontend          `namespace_conversion`, `_detect_shell`, and the entry point and command that
--                     `__create_container` chooses (`start_command`)
--   Frontend/Image    `ToolImage.__init__` (`tool_image`): the image that is fetched or built
--   Frontend/Probe    `_detect_shell` with the containers that it creates (`probe`)
--   Configuration     cincan/configuration.py over the JSON object of the file
--   Run               `__run` and `__download_results` (`run`): the life of a container
--   Run/Launch        `__create_container`, and `__run` as a whole (`run_tool`): the resolver, the upload
--                     and what `Run` does with the container
--   Run/Launch/Output  `run` and `run_get_string`: a whole run with the execution in it
--   Run/Launch/Files  what the log of a whole run says of its files
--   Run/Launch/Fresh, Run/Launch/Kept, Run/Launch/Status, Session/Exec/Streamed  the status and the
--                     streams in the log of a run
--   Main              `main` of cincan/frontend.py (`action_of`): from the options to the tool
--   Program           `main` as a whole (`program`), with the image, the run or the check and the log
--   Log/Hash          `read_with_hash` of cincan/command_log.py: the loop over the chunks of a stream
--   Log/Json          `FileLog` and `CommandLog` of cincan/command_log.py and their JSON form
--   Log/Directory     `CommandLogWriter.write` and `CommandLogIndex`, over a directory as a tree
--   Log/Store         `CommandLogBase` (`log_base`): where the logs are; the writer, the index and the
--                     end of `main` (`log_run`) over the user's home directory
--   Inspector         `CommandInspector` of cincan/command_inspector.py: `fan` is the common form of
--                     `fanin` and `fanout`, with the set `already_covered` passed on
--   Inspector/Once    how often `fan` goes on from a file
--   Inspector/Shown   the `__str__` of both kinds of dependencies (`show_file`)
--   Inspector/Hash    `hash_of`
--   Inspector/Runs    from the end of a run to the trees of a later program
--   Images            `get_image` of cincan/image_fetcher.py over a docker client with its own state
--   Images/Progress   `__pull_image_with_progress` over a terminal with rows and a cursor (`report` is
--                     one round of the loop), with `up` of cincan/utils.py
--   Versions          `VersionHandler` of cincan/version_handler.py (`compare_versions`)
--   Check             `ContainerCheck.run` of cincan/container_check.py with its two folders as state
--   Tests             the theorems at concrete inputs
--
-- How they interact: `action_of` makes a tool of the options, whose shell and entry point
-- `start_command` reads. `file_resolver` splits arguments by `Shlex` and filters by the matcher,
-- and `resolve_upload_files` gives the names for `upload`; `launch` composes these. The upload
-- notes the stats that the download compares: Tar/Upload/Unmodified is about both. `download_files`
-- composes the choice of files and the loop over each archive: the files of a container that have
-- changed go through `filter_files`, which uses the matcher; the chosen ones through
-- `download_file_set`, which asks `check_if_modified`. The frames of `unpack_container_stream` are
-- what `Session` takes in, and its entries, like those of the download, are the file entries of the
-- log, from which the inspector makes its trees. `log_run` is the end of `main`, which asks
-- `finish_run` whether the log is written; `read_index` is how a later program reads it. `program`
-- composes all of it: `tool_image` for the image, `run_args` or the check for the run, `log_run`.
--
-- Exceptions and failures are values: none, or a constructor such as `exits` and `raises`. A text
-- is a list of character codes, a byte a number below 256, a time a number of microseconds.
--
-- Fuel: `lead_dirs`, `nearest` and `parent_found` get the number of the parts of a path, each round
-- goes to the path's parent, and behind the last part they are at "." or a root; for `lead_dirs`
-- and `nearest`, none says that the code's loop would not end there. `named_parents` gets the
-- number of the path's parts, and a path has no more parents than that. `read_until` gets the
-- number of bytes that are wanted, and each round gets one at least or ends, so that it never stops
-- for want of fuel on a frame that arrives. `read_with_hash` gets one more than the stream's
-- length. `fan` has the source's own depth. `get_image` and `read_log` have the depth of Python's
-- recursion.
--
-- Parameters: how a time is written and read (`TimeFormat`, with the law that reading undoes
-- writing), the hash of a content (`digest`), the docker client (`Client`), the files of the host
-- that the inspector asks for (`Files`), the tool that the container check runs (`Tool`), whether
-- an image has a file (`has`), the files of the host (`Resolver.Host`, without cycles of links) and
-- their content (`Source`), the clock of the upload (`now`), what a container tells (`Container`),
-- what comes of a container (`Outcome`), how the execution and the downloads of a run end (`Env`),
-- the terminal's width, the registry's answer (`VersionInfo`), the UUID that a new home would get,
-- the order in which a directory of logs is listed (`iterdir`),
-- and how an image is built (`build`). `World` gathers those of a whole run, and
-- `Outside` what the program finds besides.
--
-- Not modelled: the tar archives themselves (the Python library), the parsing of the command line
-- (argparse), the list of tools and the manifests (a registry package outside the repository), the
-- terminal's mode and the attachment to a container, the escape sequences of cincan/utils.py that the
-- program does not use, packaging (setup.py) and the settings of the docs, and what is only printed,
-- but for a pull's progress, the versions and the inspector's trees. The owner and the mode of an uploaded file are left out, and a
-- downloaded file has its path in the log as it is before `resolve()`.
pub mod Prelude
pub mod Path
pub mod Shlex
pub mod Resolver
pub mod Matcher
pub mod Tar
pub mod Stream
pub mod Log
pub mod Inspector
pub mod Images
pub mod Check
pub mod Session
pub mod Frontend
pub mod Run
pub mod Main
pub mod Versions
pub mod Program
pub mod Configuration
mod Tests
