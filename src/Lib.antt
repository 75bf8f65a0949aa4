-- ===== src/Lib.antt =====
-- A model of the scratch compositor: the tile order, the workspaces, the focus, the layouts, what
-- windows, outputs and pointers ask of it, the configuration file, the key bindings, the commands
-- of its socket, the protocol that shows the workspaces to other programs, and the crash marker
-- (main.c, config.c, ext_workspace.c, crash_handler.c, server.h and config.h, in the folder src).
--
-- The state is `Server`, a record of the fields of `struct comp_server` that the modelled code
-- reads or writes. A `struct comp_toplevel` and a `struct comp_output` stand in lists, and a pointer
-- to one is its identity, so that a change of the object behind a pointer is `modify`. What the
-- code leaves to wlroots is the record `Wlroots`; what it sends away is the list of events. The
-- state of ext_workspace.c is `Ext`: its sessions and resources are tables of allocated memory, and
-- an operation that would read freed memory gives `none`.
--
--   Base           shared names: tests, lists, integers, text, sorting
--   Config         src/config.h and src/config.c: the data, the tokens, the ends of the blocks,
--                  the loader of the file, the lookups by window
--   Server         src/server.h
--   Tiling         src/main.c, `cmp_toplevel_tile_order` to `tile_sorted_views_on_output`,
--                  `tile_grid_dims`
--   Arrange        src/main.c, `server_arrange_toplevels`, visibility, work areas
--   Focus          src/main.c, `focus_toplevel`, `scroll_sync_to_focused`, minimizing
--   Decoration     src/main.c, the properties of rules and the modes of decorations
--   Workspace      src/main.c, `server_workspace_go`, `_relative`, `_move_focused`
--   Move           src/main.c, the `server_tile_move_focused` family, `server_scroll_move`
--   Switch         src/main.c, `server_set_layout`, `server_toggle_layout`
--   Lifecycle      src/main.c, new, mapped, unmapped and destroyed windows
--   Maximize       src/main.c, the maximize and fullscreen requests
--   Requests       src/main.c, what clients and task bars ask of a window, and commits
--   Pointer        src/main.c, grabs that move and resize windows, resize edges, buttons, touch
--                  contacts and tablet tools
--   Outputs        src/main.c, outputs and layer surfaces
--   Popups         src/main.c, commits and repositions of popups
--   Devices        src/main.c, the mapping of devices to outputs
--   Command, Ipc   src/main.c, `server_tile_grid_run_command`, `ipc_process_line`,
--                  `server_reload_config`
--   Bindings       src/config.c, `comp_config_try_bindings`
--   ExtWorkspace   src/ext_workspace.c: binds, requests, messages, and the end of a client
--   CrashHandler   src/crash_handler.c: the marker line, setting up and tearing down
--   Frame          what operations leave as it is
--   Invariant      the invariant of the windows and of the focus; System is a step relation of the
--                  operations, and Reach the states that it reaches
--   Tests          concrete states and runs
--
-- The key bindings, the socket's lines, the pointer, the clients' requests and the requests of
-- ext-workspace call the operations of the modules above; each of these ends by arranging the
-- windows, which reads the order of Tiling.
--
-- Loops are structural where they run over a list. The loop of `tile_grid_dims` has n rounds of
-- fuel, and a square of n columns holds n windows. A move to an edge has one round more than
-- there are tiled windows, and a window can move in one direction at most by as many places less
-- one. It gives `none` where the fuel runs out. The loops over the digits of a number have the 32
-- rounds that the buffer of the source allows them.
--
-- The counter of sort keys is a number of 32 bits that wraps round. Numbers of type `int` are exact
-- integers, as their overflow is undefined, except where the source converts a `long` to an `int`.
-- A coordinate of the cursor is a multiple of 1/256 of a pixel. Allocation is taken to succeed, but
-- for the binds of ext-workspace and the set-up of the crash handler, which have it as a parameter.
-- Regular expressions, keysyms, `strtod`, the comparison of doubles, the status of shell commands
-- and the owner of the surface at the cursor are parameters.
-- Not modelled: the animation of positions and output frames, the listeners and scene trees of
-- popups, the messages that touch and tablet events pass on to clients, keyboard devices, logging,
-- the socket itself and the start of the process.
pub mod Arrange
pub mod Base
pub mod Bindings
pub mod Command
pub mod Config
pub mod CrashHandler
pub mod Decoration
pub mod Devices
pub mod ExtWorkspace
pub mod Focus
pub mod Frame
pub mod Invariant
pub mod Ipc
pub mod Lifecycle
pub mod Maximize
pub mod Move
pub mod Outputs
pub mod Pointer
pub mod Popups
pub mod Requests
pub mod Server
pub mod Switch
pub mod Tests
pub mod Tiling
pub mod Workspace
