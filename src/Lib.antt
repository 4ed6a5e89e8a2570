-- ===== src/Lib.antt =====
-- noad: finding the advertisements in a recording of the Video Disk Recorder. The program decodes
-- the pictures of a recording, looks for the logo of the channel in them, and writes cut marks where
-- the logo comes and goes. This library models the parts that decide, and says what they do.
--
-- The parts, and where they are modelled:
-- * The cut marks (vdr_cl.cpp: cMark, cMarks; tools.cpp: cListBase::Del). Marks.antt has the list of
--   nodes, each with its address, and one definition for each operation: Sort is `sort`, Add is
--   `add`, Get, GetNext and GetPrev are `get`, `get_next` and `get_prev`, and so on.
-- * The linked list below them (tools.cpp: cListObject, cListBase), in LinkedList.antt, over a store of
--   pointers; LinkedList/Refine.antt has the list of addresses that it stands for.
-- * The operations on the marks (noad.cpp). Marks/Session.antt has MarkToggle and moveMark with the
--   file that they save, Marks/Clean.antt the two clean-up scans.
-- * The frame index (vdr_cl.cpp: cIndexFile, cNoadIndexFile). IndexFile.antt has the entries and the
--   lookups, IndexFile/Words.antt the words of the file, IndexFile/CatchUp.antt the reading of what a
--   running recording appends, with what realloc may do, IndexFile/Growing.antt the lookups that do so first,
--   IndexFile/Extra.antt the array of what is known of each frame, and IndexFile/Size.antt the sums of frame lengths.
-- * The check of a picture against the test lines of a logo (cchecklogo.cpp: CCheckLogo), in
--   CheckLogo.antt, with the search at other line offsets (newData) in CheckLogo/Search.antt, what a picture counts
--   in CheckLogo/Fitting.antt, a run of pictures in CheckLogo/Hysteresis.antt, and
--   the file of a logo (save, load) in CheckLogo/Store.antt.
-- * Learning the logo (cgetlogo.cpp: CGetLogo; ctoolbox.cpp). Learning.antt has checkBlock
--   (`is_accepted`), setDiversions, updateDiversions, setTestlines, reset and newData, Learning/Mask.antt,
--   Learning/Lines.antt, Learning/Phase.antt and Learning/Ends.antt what they leave.
-- * The four corners together (ccontrol.cpp: CControl), in Learning/Control.antt: newData, foundLogo,
--   CtrlReset, stop and forceCorner, with the check of the logo that they share their test lines with.
-- * The search over the frames (noad.cpp: checkLogoState, doLogoDetection), in Search.antt, with the
--   decoder and its callback as a parameter; Search/LogoState.antt and Search/Detection.antt say what
--   the two find. Search/LogoChange.antt has findLogoChange with getIFrameFor (its loops in
--   `block_loop` and `change_loop`), Search/DetectLogo.antt checkLogo and detectLogo, and
--   Search/Scan.antt the main loop of scanRecord, which calls them and sets the marks by MarkToggle;
--   the files below each say how they end.
-- * The search for a part that is repeated behind the advertisements (noad.cpp: doOverlapDetection),
--   in Overlap.antt, with the moves of the two marks in Overlap/Moves.antt, and the reading of the
--   pictures that it compares (getPicInfo, checkMarkPair) in Overlap/Window.antt; Overlap/Black.antt has
--   the search for black lines and black frames among them (checkBlacklineOnmark,
--   checkBlackFrameOnMarks).
-- * The analysis of one picture (noaddata.cpp: noadData): the test for a blank picture in
--   Picture.antt, the counts of black lines in Picture/Black.antt, histograms in
--   Picture/Histogram.antt, the detection of scene changes in Picture/Scene.antt, and the file of
--   what was learnt with initBuffer and setGrabSize in Picture/CheckData.antt.
-- The marks are placed at frame numbers that the index turns into file positions; the check of the
-- logo gives the positions of the marks.
--
-- Bounds and fuel: positions and frame numbers are unbounded integers, file offsets are numbers that
-- the words of the index cut at 40 or 32 bits, and a frame length is cut to a 32-bit int where the
-- source does so. The loop of GetNextIFrame and the clean-up scans take fuel; the theorems give fuel
-- that is enough, from the number of entries and from the number of marks. A counting loop takes its
-- limit as fuel, which is enough for a step of one or more. The loops over a line of a mask run over
-- the columns left; those over the linked list take rounds for its objects, and those of the search
-- take rounds for the frames of the index, which are enough by the theorems. The factor .91 of the cutoff is taken
-- as 91 / 100, rounded down; the rate of the frames is a whole number.
--
-- The marks, the index, the check of the logo and learning have no state in common but what is named
-- above: CControl hands the test lines of a corner to the check (Learning/Control.antt), and the
-- search reads the index (Search.antt).
--
-- Not modelled: decoding (the files mpeg2wrap, mpeg_decoder, libmpeg2_decoder and ffmpeg_decoder),
-- the programs around the library, logging, and what is drawn under VNOAD; the files of marks, the audio
-- cuts and the exact position of a mark; the set-up of scanRecord; the detection of scenes around a
-- mark, which reads outside of its array; the socket
-- client; strings, files and threads of tools.cpp; and the copying of the corners out of a picture.
pub mod Prelude
pub mod Marks
pub mod IndexFile
pub mod CheckLogo
pub mod Picture
pub mod Learning
pub mod LinkedList
pub mod Search
pub mod Overlap
